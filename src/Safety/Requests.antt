-- ===== src/Safety/Requests.antt =====
-- Any sequence of the use cases on missions and visits, and of the route `update_mission`, served one after the other, each in its own unit of work
-- (infrastructure/persistence/sqlalchemy/uow.py).
use sigis_backend.Base.{ℕ, ◌≡◌, ◌≢◌, true, none, some, List, [], ◌∷◌, Text, arith}
use sigis_backend.Base.Float.{FloatOps}
use sigis_backend.Base.Table.{get}
use sigis_backend.Time.{Datetime}
use sigis_backend.Errors.{err, Failure}
use sigis_backend.Api.Missions.{UpdateMissionBody, patch_mission}
use sigis_backend.Domain.Visit.{SiteVisit, SiteVisitStatus}
use sigis_backend.Domain.Establishment.{Establishment}
use sigis_backend.Domain.Users.{User}
use sigis_backend.Store.{Db, transaction}
use sigis_backend.Store.Visits.{get_visit, get_visit_by_mission}
use sigis_backend.Store.Visits.Saved.{get_visit_by_mission_lem}
use sigis_backend.UseCases.CheckIn.{CheckInInspectorCommand, CheckInDraw, check_in}
use sigis_backend.UseCases.ConfirmHost.{ConfirmWorld, ConfirmHostCommand, confirm_host}
use sigis_backend.UseCases.CheckOut.{CheckOutCommand, check_out_visit}
use sigis_backend.UseCases.Missions.{
  CreateMissionCommand, SubmitMissionOutcomeCommand, create_mission, approve_mission,
  cancel_mission, submit_outcome, reassign_inspector, create_exception,
}
use sigis_backend.Safety.Invariant.{IsSound, has_proof, has_event}
use sigis_backend.Safety.CheckIn.{check_in-IsSound}
use sigis_backend.Safety.ConfirmHost.{confirm_host-IsSound}
use sigis_backend.Safety.CheckOut.{check_out-IsSound}
use sigis_backend.Safety.Missions.{
  SameEvidence-IsSound, create_mission-SameEvidence, approve_mission-SameEvidence,
  patch_mission-SameEvidence, cancel_mission-SameEvidence, submit_outcome-SameEvidence,
  reassign_inspector-SameEvidence, create_exception-SameEvidence,
}

-- A request, with the clock readings and the UUIDs that serving it draws.
pub data Request : Type 0 where
  arrive : FloatOps → CheckInInspectorCommand → CheckInDraw → Request
  confirm : ConfirmWorld → ConfirmHostCommand → Request
  leave : CheckOutCommand → Datetime → Request
  plan : CreateMissionCommand → ℕ → ℕ → Request
  approve : ℕ → Request
  cancel : ℕ → Text → ℕ → Datetime → Request
  report : SubmitMissionOutcomeCommand → ℕ → Datetime → Request
  reassign : ℕ → ℕ → ℕ → Datetime → ℕ → ℕ → Request
  signal : ℕ → ℕ → Text → ℕ → Datetime → Request
  patch : ℕ → UpdateMissionBody → Request

-- The database after the request: committed, or rolled back.
unfoldable pub serve : Request → Db → Db
serve (arrive fl cmd draw) db = (transaction (check_in fl cmd draw) db).1
serve (confirm w cmd) db = (transaction (confirm_host w cmd) db).1
serve (leave cmd now) db = (transaction (check_out_visit cmd now) db).1
serve (plan cmd mid token) db = (transaction (create_mission cmd mid token) db).1
serve (approve mid) db = (transaction (approve_mission mid) db).1
serve (cancel mid reason by_user now) db =
    (transaction (cancel_mission mid reason by_user now) db).1
serve (report cmd oid now) db = (transaction (submit_outcome cmd oid now) db).1
serve (reassign mid inspector actor now new_id token) db =
    (transaction (reassign_inspector mid inspector actor now new_id token) db).1
serve (signal mid author message xid now) db =
    (transaction (create_exception mid author message xid now) db).1
serve (patch mid body) db = (transaction (patch_mission mid body) db).1

unfoldable pub serve_all : List Request → Db → Db
serve_all [] db = db
serve_all (r ∷ rs) db = serve_all rs (serve r db)

serve-IsSound : (r : Request) (db : Db) → IsSound db → IsSound (serve r db)
unfolding serve
serve-IsSound (arrive fl cmd draw) db s = check_in-IsSound fl cmd draw db s
serve-IsSound (confirm w cmd) db s = confirm_host-IsSound w cmd db s
serve-IsSound (leave cmd now) db s = check_out-IsSound cmd now db s
serve-IsSound (plan cmd mid token) db s =
    SameEvidence-IsSound (create_mission cmd mid token) db
      (create_mission-SameEvidence db cmd mid token) s
serve-IsSound (approve mid) db s =
    SameEvidence-IsSound (approve_mission mid) db (approve_mission-SameEvidence db mid) s
serve-IsSound (cancel mid reason by_user now) db s =
    SameEvidence-IsSound (cancel_mission mid reason by_user now) db
      (cancel_mission-SameEvidence db mid reason by_user now) s
serve-IsSound (report cmd oid now) db s =
    SameEvidence-IsSound (submit_outcome cmd oid now) db
      (submit_outcome-SameEvidence db cmd oid now) s
serve-IsSound (reassign mid inspector actor now new_id token) db s =
    SameEvidence-IsSound (reassign_inspector mid inspector actor now new_id token) db
      (reassign_inspector-SameEvidence db mid inspector actor now new_id token) s
serve-IsSound (signal mid author message xid now) db s =
    SameEvidence-IsSound (create_exception mid author message xid now) db
      (create_exception-SameEvidence db mid author message xid now) s
serve-IsSound (patch mid body) db s =
    SameEvidence-IsSound (patch_mission mid body) db (patch_mission-SameEvidence db mid body) s

-- Whatever requests are served on a sound database, replayed and refused ones included, it stays
-- sound: visit ids and the missions of visits are unique, the stored answers have unique keys,
-- every visit has the times that fit its status, every visit that has left the scheduled state
-- has a presence proof, and every validated or completed one has a co-presence event.
pub serve_all-IsSound : (rs : List Request) (db : Db) → IsSound db → IsSound (serve_all rs db)
unfolding serve_all
serve_all-IsSound [] db s = s
serve_all-IsSound (r ∷ rs) db s = serve_all-IsSound rs (serve r db) (serve-IsSound r db s)

-- A database with establishments and users and no other rows.
abbrev pub start : List Establishment → List User → Db
start establishments users = record {
  establishments = establishments;
  missions = [];
  site_visits = [];
  presence_proofs = [];
  copresence_events = [];
  exception_requests = [];
  mission_outcomes = [];
  idempotency = [];
  used_qr_jti = [];
  users = users;
  reset_tokens = [];
  role_permissions = [];
  mobile_devices = [];
  mobile_events = [];
  audit_chain = [];
  audit_logs = [];
}

pub start-IsSound : (es : List Establishment) (us : List User) → IsSound (start es us)
unfolding get_visit get
start-IsSound es us = record {
  keyed = record { ids = tt; missions = tt };
  keys = tt;
  visit = λ j v h. absurd (ground arith);
}

-- After any requests, from a database with establishments and users alone: a visit that is
-- completed has a presence proof, a co-presence event, a check-in time and a check-out time.
pub completed_evidence :
    (es : List Establishment) (us : List User) (rs : List Request) (j : ℕ) (v : SiteVisit)
    → get_visit j (serve_all rs (start es us)) ≡ some v
    → v.status ≡ SiteVisitStatus.completed
    → let db = serve_all rs (start es us) in
      (has_proof v.id db.presence_proofs ≡ true)
      × (has_event v.id db.copresence_events ≡ true)
      × (v.checked_in_at ≢ none)
      × (v.checked_out_at ≢ none)
completed_evidence es us rs j v h c =
    let e = (serve_all-IsSound rs (start es us) (start-IsSound es us)).visit j v h in
    (
      e.proof (ground arith),
      e.event (ground arith),
      ground (arith, e.coherent),
      ground (arith, e.coherent),
    )

-- After any requests, the lookup of a mission's visit never raises MultipleResultsFound.
pub one_visit_per_mission :
    (es : List Establishment) (us : List User) (rs : List Request) (mid : ℕ)
    → let db = serve_all rs (start es us) in
      (get_visit_by_mission mid db).0 ≢ err Failure.multiple_results_found
one_visit_per_mission es us rs mid =
    let db = serve_all rs (start es us) in
    rw
      (get_visit_by_mission_lem mid db
        (serve_all-IsSound rs (start es us) (start-IsSound es us)).keyed)
      (ground arith)
