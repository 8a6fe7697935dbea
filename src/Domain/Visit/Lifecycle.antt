-- ===== src/Domain/Visit/Lifecycle.antt =====
-- The life of a visit under the three transitions of domain/site_visit/transitions.py, taken in
-- any order and any number, refused ones included.
use sigis_backend.Base.{ℕ, ◌≡◌, ◌≢◌, refl, none, List, [], ◌∷◌, arith}
use sigis_backend.Time.{Datetime}
use sigis_backend.Errors.{Result, ok, err, raised_as, ErrorClass, class_code}
use sigis_backend.Domain.Visit.{
  SiteVisit, SiteVisitStatus, HostValidationMode, new_visit, start_check_in, mark_copresence_ok,
  check_out,
}

pub data VisitEvent : Type 0 where
  check_in : Datetime → HostValidationMode → VisitEvent
  copresence : VisitEvent
  leave : Datetime → VisitEvent

-- A transition by name.
unfoldable pub fire : SiteVisit → VisitEvent → Result SiteVisit
unfolding start_check_in mark_copresence_ok check_out
fire v (check_in now mode) = start_check_in v now mode
fire v copresence = mark_copresence_ok v
fire v (leave now) = check_out v now

-- A refused transition leaves the visit.
abbrev pub kept : Result SiteVisit → SiteVisit → SiteVisit
kept (ok v') v = v'
kept (err e) v = v

unfoldable pub run : SiteVisit → List VisitEvent → SiteVisit
unfolding fire
run v [] = v
run v (e ∷ es) = run (kept (fire v e) v) es

-- How the times follow the status.
abbrev Fields : SiteVisitStatus → SiteVisit → Type 0
Fields SiteVisitStatus.scheduled v = (v.checked_in_at ≡ none) × (v.checked_out_at ≡ none)
Fields SiteVisitStatus.checked_in v = ⊥
Fields SiteVisitStatus.pending_host v = (v.checked_in_at ≢ none) × (v.checked_out_at ≡ none)
Fields SiteVisitStatus.copresence_ok v = (v.checked_in_at ≢ none) × (v.checked_out_at ≡ none)
Fields SiteVisitStatus.checked_out v = ⊥
Fields SiteVisitStatus.completed v = (v.checked_in_at ≢ none) × (v.checked_out_at ≢ none)
Fields SiteVisitStatus.cancelled v = ⊥

abbrev pub IsCoherent : SiteVisit → Type 0
IsCoherent v = Fields v.status v

pub new_visit-IsCoherent : (vid mid : ℕ) → IsCoherent (new_visit vid mid)
unfolding new_visit
new_visit-IsCoherent vid mid = (refl, refl)

fire-IsCoherent : (v : SiteVisit) (e : VisitEvent) → IsCoherent v → IsCoherent (kept (fire v e) v)
unfolding fire
fire-IsCoherent v (check_in now mode) c = ground arith
fire-IsCoherent v copresence c = ground arith
fire-IsCoherent v (leave now) c = ground arith

-- Whatever transitions are tried on a coherent visit, refused ones included, it stays coherent:
-- the check-in time is set exactly from the pending state on, the check-out time exactly in the
-- completed state, and the states checked_in, checked_out and cancelled are never entered.
pub run-IsCoherent : (v : SiteVisit) (es : List VisitEvent) → IsCoherent v → IsCoherent (run v es)
unfolding run
run-IsCoherent v [] c = c
run-IsCoherent v (e ∷ es) c = run-IsCoherent (kept (fire v e) v) es (fire-IsCoherent v e c)

pub check_out-coherent :
    (v : SiteVisit) (now : Datetime)
    → IsCoherent v
    → check_out v now ≢ err (raised_as ErrorClass.already_checked_out)
unfolding check_out class_code
check_out-coherent v now c = ground arith
