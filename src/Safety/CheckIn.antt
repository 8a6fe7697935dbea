-- ===== src/Safety/CheckIn.antt =====
-- A check-in keeps the database sound (application/use_cases/check_in_inspector.py).
use mathlib.Core.Path.{subst}
use sigis_backend.Base.{ℕ, ◌≡◌, refl, none, some, inl, inr, Option-cases, arith}
use sigis_backend.Base.Table.{get}
use sigis_backend.Base.Table.Keys.{get_both}
use sigis_backend.Base.Float.{FloatOps}
use sigis_backend.Time.{Datetime}
use sigis_backend.Errors.{ok}
use sigis_backend.Domain.Mission.{Mission}
use sigis_backend.Domain.Visit.{SiteVisit, SiteVisitStatus, new_visit, start_check_in}
use sigis_backend.Domain.Visit.Lifecycle.{IsCoherent}
use sigis_backend.Domain.Presence.{GeofenceStatus, PresenceProof}
use sigis_backend.Store.{Db, Payload, Scope, transaction, ◌>>=◌}
use sigis_backend.Store.Binds.{>>=-Step}
use sigis_backend.Store.Visits.{get_visit, save_visit, get_visit_by_mission}
use sigis_backend.Store.Visits.Saved.{visit_id, visit_mission, get_visit_by_mission_lem}
use sigis_backend.Store.Idempotency.{get_response, save_response}
use sigis_backend.Store.Idempotency.Keys.{save_response-UniqueKeys}
use sigis_backend.Store.Evidence.{add_proof}
use sigis_backend.UseCases.CheckIn.{
  CheckInInspectorCommand, CheckInDraw, check_in_guards, check_in_visit, check_in_write,
  check_in_fresh, check_in,
}
use sigis_backend.Safety.Rollback.{replayed_keeps}
use sigis_backend.Safety.Invariant.{IsSound, saved_visit-IsSound, has_proof-append}

-- The checks write nothing.
pub guards_same :
    (fl : FloatOps) (cmd : CheckInInspectorCommand) (now : Datetime) (db : Db)
    → (check_in_guards fl cmd now db).1 ≡ db
unfolding check_in_guards
guards_same fl cmd now db = ground arith

-- The visit that a check-in saves is pending, and is the first one of its mission or the
-- scheduled one.
pub record Begun (cmd : CheckInInspectorCommand) (draw : CheckInDraw) (m : Mission) (db : Db)
    (v : SiteVisit) : Type 0 where
  pub status : v.status ≡ SiteVisitStatus.pending_host
  pub coherent : IsCoherent v
  pub first_one : get_visit v.id db ≡ none → get visit_mission v.mission_id db.site_visits ≡ none

pub visit_same :
    (cmd : CheckInInspectorCommand) (draw : CheckInDraw) (m : Mission) (db : Db)
    → (check_in_visit cmd draw m db).1 ≡ db
unfolding check_in_visit get_visit_by_mission
visit_same cmd draw m db = ground arith

pub visit-Begun :
    (cmd : CheckInInspectorCommand) (draw : CheckInDraw) (m : Mission) (db : Db) (v : SiteVisit)
    → IsSound db
    → (check_in_visit cmd draw m db).0 ≡ ok v
    → Begun cmd draw m db v
unfolding check_in_visit start_check_in new_visit
visit-Begun cmd draw m db v s h = elim (Option-cases (get visit_mission m.id db.site_visits)) [
  | inl nobody ↦ record {
    status = ground (arith, get_visit_by_mission_lem m.id db s.keyed);
    coherent = ground (arith, get_visit_by_mission_lem m.id db s.keyed);
    first_one = ground (arith, get_visit_by_mission_lem m.id db s.keyed);
  }
  | inr (old, e) ↦
      let there : get_visit old.id db ≡ some old =
        unfold get_visit in get_both visit_id visit_mission m.id old db.site_visits s.keyed.ids e in
      let was : IsCoherent old = (s.visit old.id old there).coherent in
      record {
        status = ground (arith, get_visit_by_mission_lem m.id db s.keyed);
        coherent = ground (arith, get_visit_by_mission_lem m.id db s.keyed);
        first_one = ground (arith, get_visit_by_mission_lem m.id db s.keyed);
      }
]

abbrev the_proof :
    CheckInInspectorCommand → CheckInDraw → GeofenceStatus → SiteVisit → PresenceProof
the_proof cmd draw gf v = record {
  id = draw.proof_id;
  site_visit_id = v.id;
  actor_user_id = cmd.inspector_user_id;
  recorded_at = draw.now;
  latitude = cmd.latitude;
  longitude = cmd.longitude;
  geofence_status = gf;
}

-- The rows that are written leave a sound database.
write-IsSound :
    (cmd : CheckInInspectorCommand) (draw : CheckInDraw) (m : Mission) (gf : GeofenceStatus)
    (v : SiteVisit) (db : Db)
    → IsSound db
    → (get_response (Scope.check_in cmd.mission_id) cmd.client_request_id db).0 ≡ ok none
    → Begun cmd draw m db v
    → IsSound (check_in_write cmd draw gf v db).1
unfolding check_in_write save_visit add_proof save_response
write-IsSound cmd draw m gf v db s fresh b =
    let kept = λ (i : ℕ). has_proof-append i db.presence_proofs (the_proof cmd draw gf v) in
    saved_visit-IsSound v db (check_in_write cmd draw gf v db).1 s b.first_one refl
      (save_response-UniqueKeys (Scope.check_in cmd.mission_id) cmd.client_request_id draw.now
        (Payload.checked_in v.id gf v.status) db fresh s.keys)
      (record { proofs = λ i. (kept i).0; events = λ i h. h })
      (record {
        coherent = b.coherent;
        proof = λ h. (kept v.id).1 refl;
        event = λ h. absurd (ground (arith, b.status));
      })

-- A check-in that goes through, step by step.
pub record Accepted (fl : FloatOps) (cmd : CheckInInspectorCommand) (draw : CheckInDraw) (db : Db)
    : Type 0 where
  pub mission : Mission
  pub status : GeofenceStatus
  pub visit : SiteVisit
  pub guards : (check_in_guards fl cmd draw.now db).0 ≡ ok (mission, status)
  pub begun : (check_in_visit cmd draw mission db).0 ≡ ok visit
  pub whole : check_in_fresh fl cmd draw db ≡ check_in_write cmd draw status visit db

pub fresh-Accepted :
    (fl : FloatOps) (cmd : CheckInInspectorCommand) (draw : CheckInDraw) (db : Db) (p : Payload)
    → (check_in_fresh fl cmd draw db).0 ≡ ok p
    → Accepted fl cmd draw db
unfolding check_in_fresh
fresh-Accepted fl cmd draw db p h =
    let rest = λ (x : Mission × GeofenceStatus).
      check_in_visit cmd draw x.0 >>= check_in_write cmd draw x.1 in
    let a = >>=-Step (check_in_guards fl cmd draw.now) rest db p h in
    let h' : (rest a.result db).0 ≡ ok p =
      subst (λ x. (rest a.result x).0 ≡ ok p) (guards_same fl cmd draw.now db) (rw a.rest at h) in
    let b =
      >>=-Step (check_in_visit cmd draw a.result.0) (check_in_write cmd draw a.result.1) db p h' in
    record {
      mission = a.result.0;
      status = a.result.1;
      visit = b.result;
      guards = a.first;
      begun = b.first;
      whole =
          rw (a.rest, guards_same fl cmd draw.now db, b.rest, visit_same cmd draw a.result.0 db);
    }

fresh-IsSound :
    (fl : FloatOps) (cmd : CheckInInspectorCommand) (draw : CheckInDraw) (db : Db) (p : Payload)
    → IsSound db
    → (get_response (Scope.check_in cmd.mission_id) cmd.client_request_id db).0 ≡ ok none
    → (check_in_fresh fl cmd draw db).0 ≡ ok p
    → IsSound (check_in_fresh fl cmd draw db).1
fresh-IsSound fl cmd draw db p s fresh h =
    let a = fresh-Accepted fl cmd draw db p h in
    rw a.whole (
      write-IsSound cmd draw a.mission a.status a.visit db s fresh
        (visit-Begun cmd draw a.mission db a.visit s a.begun))

-- A check-in, replayed, refused or accepted, leaves a sound database sound after its transaction.
pub check_in-IsSound :
    (fl : FloatOps) (cmd : CheckInInspectorCommand) (draw : CheckInDraw) (db : Db)
    → IsSound db
    → IsSound (transaction (check_in fl cmd draw) db).1
unfolding check_in
check_in-IsSound fl cmd draw db s =
    replayed_keeps IsSound (Scope.check_in cmd.mission_id) cmd.client_request_id
      (check_in_fresh fl cmd draw) db s (λ p. fresh-IsSound fl cmd draw db p s)
