-- ===== src/Domain/Visit/Order.antt =====
-- In which order the three transitions of domain/site_visit/transitions.py lead to a completed visit.
use sigis_backend.Base.{
  ◌≡◌, refl, ap, ◌≢◌, some, none, List, [], ◌∷◌, inl, inr, Option-cases, arith,
}
use sigis_backend.Time.{Datetime, to_utc}
use sigis_backend.Errors.{ok, err, raised_as, ErrorClass}
use sigis_backend.Domain.Visit.{SiteVisit, SiteVisitStatus, HostValidationMode, check_out}
use sigis_backend.Domain.Visit.Lifecycle.{
  VisitEvent, check_in, copresence, leave, fire, kept, run, IsCoherent, run-IsCoherent,
  check_out-coherent,
}

-- The events of the first list occur in the second one, in this order.
pub data Subsequence : List VisitEvent → List VisitEvent → Type 0 where
  nil : {es : List VisitEvent} → Subsequence [] es
  skip : {es fs : List VisitEvent} {e : VisitEvent} → Subsequence es fs → Subsequence es (e ∷ fs)
  take :
      {es fs : List VisitEvent} {e : VisitEvent} → Subsequence es fs → Subsequence (e ∷ es) (e ∷ fs)

-- One event, then the others.
run-cons :
    (v w : SiteVisit) (e : VisitEvent) (es : List VisitEvent)
    → kept (fire v e) v ≡ w
    → run v (e ∷ es) ≡ run w es
unfolding run
run-cons v w e es s = ap (λ x. run x es) s

run-nil : (v : SiteVisit) → run v [] ≡ v
unfolding run
run-nil v = refl

-- A completed visit is final.
run-completed :
    (v : SiteVisit) (es : List VisitEvent) → v.status ≡ SiteVisitStatus.completed → run v es ≡ v
unfolding run
run-completed v [] h = refl
run-completed v (check_in now mode ∷ es) h = ground (arith, run-completed v es h)
run-completed v (copresence ∷ es) h = ground (arith, run-completed v es h)
run-completed v (leave now ∷ es) h = ground (arith, run-completed v es h)

-- What is left to do from each state before the visit is completed.
record Closing (v : SiteVisit) (es : List VisitEvent) (last : SiteVisit) : Type 0 where
  left : Datetime
  at : Subsequence (leave left ∷ []) es
  out : last.checked_out_at ≡ some (to_utc left)
  same_in : last.checked_in_at ≡ v.checked_in_at
  same_mode : last.host_validation_mode ≡ v.host_validation_mode

later :
    {v last : SiteVisit} {es : List VisitEvent} {e : VisitEvent}
    → Closing v es last
    → Closing v (e ∷ es) last
later r = record {
  left = r.left;
  at = skip r.at;
  out = r.out;
  same_in = r.same_in;
  same_mode = r.same_mode;
}

module _ (v : SiteVisit) (h : v.status ≡ SiteVisitStatus.copresence_ok) where
  no_check_in :
      (now : Datetime) (mode : HostValidationMode) → kept (fire v (check_in now mode)) v ≡ v
  unfolding fire
  no_check_in now mode = ground arith

  no_copresence : kept (fire v copresence) v ≡ v
  unfolding fire
  no_copresence = ground arith

  no_second_leave : (now t : Datetime) → v.checked_out_at ≡ some t → kept (fire v (leave now)) v ≡ v
  unfolding fire
  no_second_leave now t e = ground arith

  leaves :
      (now : Datetime)
      → v.checked_out_at ≡ none
      → kept (fire v (leave now)) v
        ≡ record v { checked_out_at = some (to_utc now); status = SiteVisitStatus.completed }
  unfolding fire
  leaves now e = ground arith

closing :
    (v : SiteVisit) (es : List VisitEvent)
    → v.status ≡ SiteVisitStatus.copresence_ok
    → (run v es).status ≡ SiteVisitStatus.completed
    → Closing v es (run v es)
closing v [] h c = absurd (ground (arith, run-nil v))
closing v (check_in now mode ∷ es) h c =
    let s = run-cons v v (check_in now mode) es (no_check_in v h now mode) in
    rw s (later (closing v es h (rw s at c)))
closing v (copresence ∷ es) h c =
    let s = run-cons v v copresence es (no_copresence v h) in
    rw s (later (closing v es h (rw s at c)))
closing v (leave now ∷ es) h c = elim (Option-cases v.checked_out_at) [
  | inl open_visit ↦ rw (run-cons v _ (leave now) es (leaves v h now open_visit)) (
      rw
        (run-completed
          (record v { checked_out_at = some (to_utc now); status = SiteVisitStatus.completed }) es
          refl)
        (record { left = now; at = take nil; out = refl; same_in = refl; same_mode = refl }))
  | inr (t, e) ↦
      let s = run-cons v v (leave now) es (no_second_leave v h now t e) in
      rw s (later (closing v es h (rw s at c)))
]

-- From the pending state a co-presence has to come first.
record Waiting (v : SiteVisit) (es : List VisitEvent) (last : SiteVisit) : Type 0 where
  left : Datetime
  at : Subsequence (copresence ∷ leave left ∷ []) es
  out : last.checked_out_at ≡ some (to_utc left)
  same_in : last.checked_in_at ≡ v.checked_in_at
  same_mode : last.host_validation_mode ≡ v.host_validation_mode

module _ (v : SiteVisit) (h : v.status ≡ SiteVisitStatus.pending_host) where
  no_second_check_in :
      (now : Datetime) (mode : HostValidationMode) → kept (fire v (check_in now mode)) v ≡ v
  unfolding fire
  no_second_check_in now mode = ground arith

  no_early_leave : (now : Datetime) → kept (fire v (leave now)) v ≡ v
  unfolding fire
  no_early_leave now = ground arith

  joins : kept (fire v copresence) v ≡ record v { status = SiteVisitStatus.copresence_ok }
  unfolding fire
  joins = ground arith

later-Waiting :
    {v last : SiteVisit} {es : List VisitEvent} {e : VisitEvent}
    → Waiting v es last
    → Waiting v (e ∷ es) last
later-Waiting r = record {
  left = r.left;
  at = skip r.at;
  out = r.out;
  same_in = r.same_in;
  same_mode = r.same_mode;
}

waiting :
    (v : SiteVisit) (es : List VisitEvent)
    → v.status ≡ SiteVisitStatus.pending_host
    → (run v es).status ≡ SiteVisitStatus.completed
    → Waiting v es (run v es)
waiting v [] h c = absurd (ground (arith, run-nil v))
waiting v (check_in now mode ∷ es) h c =
    let s = run-cons v v (check_in now mode) es (no_second_check_in v h now mode) in
    rw s (later-Waiting (waiting v es h (rw s at c)))
waiting v (copresence ∷ es) h c =
    let s = run-cons v _ copresence es (joins v h) in
    let r = closing (record v { status = SiteVisitStatus.copresence_ok }) es refl (rw s at c) in
    rw s (record {
      left = r.left;
      at = take r.at;
      out = r.out;
      same_in = r.same_in;
      same_mode = r.same_mode;
    })
waiting v (leave now ∷ es) h c =
    let s = run-cons v v (leave now) es (no_early_leave v h now) in
    rw s (later-Waiting (waiting v es h (rw s at c)))

-- How a visit came to be completed: when and in which mode it began, and when it ended.
pub record Completion (es : List VisitEvent) (last : SiteVisit) : Type 0 where
  pub came : Datetime
  pub mode : HostValidationMode
  pub left : Datetime
  pub in_order : Subsequence (check_in came mode ∷ copresence ∷ leave left ∷ []) es
  pub at_in : last.checked_in_at ≡ some (to_utc came)
  pub at_out : last.checked_out_at ≡ some (to_utc left)
  pub in_mode : last.host_validation_mode ≡ some mode

not_yet :
    {es : List VisitEvent} {last : SiteVisit} {e : VisitEvent}
    → Completion es last
    → Completion (e ∷ es) last
not_yet r = record {
  came = r.came;
  mode = r.mode;
  left = r.left;
  in_order = skip r.in_order;
  at_in = r.at_in;
  at_out = r.at_out;
  in_mode = r.in_mode;
}

module _ (v : SiteVisit) (h : v.status ≡ SiteVisitStatus.scheduled) where
  not_before_check_in : kept (fire v copresence) v ≡ v
  unfolding fire
  not_before_check_in = ground arith

  no_leave_before : (now : Datetime) → kept (fire v (leave now)) v ≡ v
  unfolding fire
  no_leave_before now = ground arith

  arrives :
      (now : Datetime) (mode : HostValidationMode)
      → kept (fire v (check_in now mode)) v ≡ record v {
        host_validation_mode = some mode;
        checked_in_at = some (to_utc now);
        status = SiteVisitStatus.pending_host;
      }
  unfolding fire
  arrives now mode = ground arith

-- A scheduled visit that ends up completed, after any transitions, refused ones included, was
-- checked in, then had its co-presence validated, then was checked out, in this order; and it
-- records the mode and the time of that check-in and the time of that check-out.
pub run-Completion :
    (v : SiteVisit) (es : List VisitEvent)
    → v.status ≡ SiteVisitStatus.scheduled
    → (run v es).status ≡ SiteVisitStatus.completed
    → Completion es (run v es)
run-Completion v [] h c = absurd (ground (arith, run-nil v))
run-Completion v (check_in now mode ∷ es) h c =
    let s = run-cons v _ (check_in now mode) es (arrives v h now mode) in
    let began = record v {
      host_validation_mode = some mode;
      checked_in_at = some (to_utc now);
      status = SiteVisitStatus.pending_host;
    } in
    let r = waiting began es refl (rw s at c) in
    rw s (record {
      came = now;
      mode = mode;
      left = r.left;
      in_order = take r.at;
      at_in = r.same_in;
      at_out = r.out;
      in_mode = r.same_mode;
    })
run-Completion v (copresence ∷ es) h c =
    let s = run-cons v v copresence es (not_before_check_in v h) in
    rw s (not_yet (run-Completion v es h (rw s at c)))
run-Completion v (leave now ∷ es) h c =
    let s = run-cons v v (leave now) es (no_leave_before v h now) in
    rw s (not_yet (run-Completion v es h (rw s at c)))

checks_out :
    (v v' : SiteVisit) (t : Datetime)
    → check_out v t ≡ ok v'
    → v' ≡ record v { checked_out_at = some (to_utc t); status = SiteVisitStatus.completed }
unfolding check_out
checks_out v v' t h = ground (arith, h)

too_late :
    (v : SiteVisit) (now : Datetime)
    → v.status ≡ SiteVisitStatus.completed
    → check_out v now ≡ err (raised_as ErrorClass.invariant_violation)
unfolding check_out
too_late v now c = rw c

-- If a check-out succeeds, after any transitions of a coherent visit, it sets its time and
-- completes the visit and changes nothing else; no later transitions change the visit, and every
-- later check-out is refused as an invariant violation, for the state. AlreadyCheckedOut is never
-- raised, whatever the transitions before.
pub check_out_once :
    (v v' : SiteVisit) (es later : List VisitEvent) (t now : Datetime)
    → IsCoherent v
    → check_out (run v es) t ≡ ok v'
    → (v' ≡ record (run v es) {
      checked_out_at = some (to_utc t);
      status = SiteVisitStatus.completed;
    })
      × (run v' later ≡ v')
      × (check_out (run v' later) now ≡ err (raised_as ErrorClass.invariant_violation))
      × (check_out (run v later) now ≢ err (raised_as ErrorClass.already_checked_out))
check_out_once v v' es later t now c h =
    let closed = checks_out (run v es) v' t h in
    let completed : v'.status ≡ SiteVisitStatus.completed =
      ap (λ (x : SiteVisit). x.status) closed in
    let final = run-completed v' later completed in
    (
      closed,
      final,
      rw final (too_late v' now completed),
      check_out-coherent (run v later) now (run-IsCoherent v later c),
    )
