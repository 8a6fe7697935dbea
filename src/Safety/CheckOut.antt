-- ===== src/Safety/CheckOut.antt =====
-- A check-out keeps the database sound (application/use_cases/check_out_visit.py).
use mathlib.Core.Path.{subst}
use sigis_backend.Base.{◌≡◌, refl, none, some, arith}
use sigis_backend.Base.Table.{key_of_get}
use sigis_backend.Store.Visits.Saved.{visit_id}
use sigis_backend.Time.{Datetime}
use sigis_backend.Errors.{ok}
use sigis_backend.Domain.Visit.{SiteVisit, check_out}
use sigis_backend.Store.{Db, Payload, Scope, transaction, ◌>>=◌, lift}
use sigis_backend.Store.Binds.{>>=-Step}
use sigis_backend.Store.Visits.{get_visit, save_visit}
use sigis_backend.Store.Idempotency.{get_response, save_response}
use sigis_backend.Store.Idempotency.Keys.{save_response-UniqueKeys}
use sigis_backend.UseCases.CheckOut.{
  CheckOutCommand, presence_duration, check_out_guards, check_out_write, check_out_fresh,
  check_out_visit,
}
use sigis_backend.Safety.Rollback.{replayed_keeps}
use sigis_backend.Safety.Invariant.{IsSound, IsEvident, saved_visit-IsSound}

-- The checks write nothing and give the visit of the command.
pub check_out_guards_lem :
    (cmd : CheckOutCommand) (db : Db) (v : SiteVisit)
    → (check_out_guards cmd db).0 ≡ ok v
    → (get_visit cmd.site_visit_id db ≡ some v) × (v.mission_id ≡ cmd.mission_id)
unfolding check_out_guards
check_out_guards_lem cmd db v h = ground arith

pub check_out_guards_same : (cmd : CheckOutCommand) (db : Db) → (check_out_guards cmd db).1 ≡ db
unfolding check_out_guards
check_out_guards_same cmd db = ground arith

id_of_found :
    (cmd : CheckOutCommand) (db : Db) (v : SiteVisit)
    → get_visit cmd.site_visit_id db ≡ some v
    → v.id ≡ cmd.site_visit_id
unfolding get_visit
id_of_found cmd db v h = key_of_get visit_id cmd.site_visit_id db.site_visits h

-- The visit that a check-out saves: completed, and evident where the visit before was.
closed-IsEvident :
    (now : Datetime) (db : Db) (v closed : SiteVisit)
    → IsEvident v db
    → check_out v now ≡ ok closed
    → IsEvident closed db × (closed.id ≡ v.id) × (closed.mission_id ≡ v.mission_id)
unfolding check_out
closed-IsEvident now db v closed ev h = (
  record {
    coherent = ground (arith, ev.coherent);
    proof = ground (arith, ev.proof, ev.event);
    event = ground (arith, ev.event);
  },
  ground arith,
  ground arith,
)

write-IsSound :
    (cmd : CheckOutCommand) (now : Datetime) (db : Db) (v closed : SiteVisit)
    → IsSound db
    → (get_response (Scope.check_out cmd.site_visit_id) cmd.client_request_id db).0 ≡ ok none
    → get_visit cmd.site_visit_id db ≡ some v
    → check_out v now ≡ ok closed
    → IsSound (check_out_write cmd now closed db).1
unfolding check_out_write save_visit save_response
write-IsSound cmd now db v closed s fresh found h =
    let (ev, same_id, same_mission) =
      closed-IsEvident now db v closed (s.visit cmd.site_visit_id v found) h in
    saved_visit-IsSound closed db (check_out_write cmd now closed db).1 s
      (λ missing. absurd (ground (arith, missing, same_id, found, id_of_found cmd db v found))) refl
      (save_response-UniqueKeys (Scope.check_out cmd.site_visit_id) cmd.client_request_id now
        (Payload.checked_out closed.status closed.checked_out_at
          (presence_duration closed.checked_in_at closed.checked_out_at))
        db fresh s.keys)
      (record { proofs = λ i h. h; events = λ i h. h })
      (record { coherent = ev.coherent; proof = ev.proof; event = ev.event })

-- A check-out that goes through, step by step.
pub record Accepted (cmd : CheckOutCommand) (now : Datetime) (db : Db) : Type 0 where
  pub visit : SiteVisit
  pub closed : SiteVisit
  pub guards : (check_out_guards cmd db).0 ≡ ok visit
  pub closing : check_out visit now ≡ ok closed
  pub whole : check_out_fresh cmd now db ≡ check_out_write cmd now closed db

pub fresh-Accepted :
    (cmd : CheckOutCommand) (now : Datetime) (db : Db) (p : Payload)
    → (check_out_fresh cmd now db).0 ≡ ok p
    → Accepted cmd now db
unfolding check_out_fresh
fresh-Accepted cmd now db p h =
    let rest = λ (v : SiteVisit). lift (check_out v now) >>= check_out_write cmd now in
    let a = >>=-Step (check_out_guards cmd) rest db p h in
    let h' : (rest a.result db).0 ≡ ok p =
      subst (λ x. (rest a.result x).0 ≡ ok p) (check_out_guards_same cmd db) (rw a.rest at h) in
    let b = >>=-Step (lift (check_out a.result now)) (check_out_write cmd now) db p h' in
    record {
      visit = a.result;
      closed = b.result;
      guards = a.first;
      closing = b.first;
      whole = rw (a.rest, check_out_guards_same cmd db, b.rest);
    }

fresh-IsSound :
    (cmd : CheckOutCommand) (now : Datetime) (db : Db) (p : Payload)
    → IsSound db
    → (get_response (Scope.check_out cmd.site_visit_id) cmd.client_request_id db).0 ≡ ok none
    → (check_out_fresh cmd now db).0 ≡ ok p
    → IsSound (check_out_fresh cmd now db).1
fresh-IsSound cmd now db p s fresh h =
    let a = fresh-Accepted cmd now db p h in
    rw a.whole (
      write-IsSound cmd now db a.visit a.closed s fresh
        (check_out_guards_lem cmd db a.visit a.guards).0 a.closing)

-- A check-out, replayed, refused or accepted, leaves a sound database sound after its transaction.
pub check_out-IsSound :
    (cmd : CheckOutCommand) (now : Datetime) (db : Db)
    → IsSound db
    → IsSound (transaction (check_out_visit cmd now) db).1
unfolding check_out_visit
check_out-IsSound cmd now db s =
    replayed_keeps IsSound (Scope.check_out cmd.site_visit_id) cmd.client_request_id
      (check_out_fresh cmd now) db s (λ p. fresh-IsSound cmd now db p s)
