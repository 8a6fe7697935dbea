-- ===== src/Safety/Outcomes.antt =====
-- A mission has one report at most (application/use_cases/mission_workflow.py,
-- `SubmitMissionOutcome`).
use sigis_backend.Base.{ℕ, ◌≡◌, some, List, [], ◌∷◌, Text, inl, inr, Option-cases, arith}
use sigis_backend.Base.Table.{get, IsUnique, snoc-IsUnique}
use sigis_backend.Time.{Datetime}
use sigis_backend.Errors.{ok, err, raised_as, ErrorClass}
use sigis_backend.Api.Missions.{UpdateMissionBody, patch_mission}
use sigis_backend.Domain.Users.{User}
use sigis_backend.Domain.Mission.{Mission, MissionOutcome}
use sigis_backend.Domain.Establishment.{Establishment}
use sigis_backend.Store.{Db, Exec, Scope, transaction}
use sigis_backend.Store.Missions.{get_mission, save_mission}
use sigis_backend.Store.Visits.Saved.{one_or_none}
use sigis_backend.Store.Reports.{get_outcome_by_mission, save_outcome, add_exception}
use sigis_backend.UseCases.CheckIn.{check_in, check_in_fresh}
use sigis_backend.UseCases.ConfirmHost.{confirm_host, confirm_fresh}
use sigis_backend.UseCases.CheckOut.{check_out_visit, check_out_fresh}
use sigis_backend.UseCases.Missions.{
  CreateMissionCommand, SubmitMissionOutcomeCommand, require_user, create_mission, approve_mission,
  cancel_mission, new_outcome, submit_outcome, reassign_inspector, create_exception,
}
use sigis_backend.Safety.Rollback.{replayed_keeps, transaction_keeps}
use sigis_backend.Safety.Plans.{check_in-SamePlans, check_out-SamePlans, confirm-SamePlans}
use sigis_backend.Safety.Requests.{
  Request, arrive, confirm, leave, plan, approve, cancel, report, reassign, signal, patch, serve,
  serve_all, start,
}

abbrev pub outcome_mission : MissionOutcome → ℕ
outcome_mission o = o.mission_id

-- One outcome per mission.
abbrev pub OneEach : Db → Type 0
OneEach db = IsUnique outcome_mission db.mission_outcomes

get_outcome_lem :
    (mid : ℕ) (db : Db)
    → OneEach db
    → get_outcome_by_mission mid db ≡ (ok (get outcome_mission mid db.mission_outcomes), db)
unfolding get_outcome_by_mission
get_outcome_lem mid db u = rw (one_or_none outcome_mission mid db.mission_outcomes u)

module _ (cmd : SubmitMissionOutcomeCommand) (oid : ℕ) (now : Datetime) (db : Db)
    (u : OneEach db) where
  submit-OneEach :
      (o : MissionOutcome)
      → (submit_outcome cmd oid now db).0 ≡ ok o
      → OneEach (submit_outcome cmd oid now db).1
  unfolding submit_outcome save_outcome
  submit-OneEach o h = elim (Option-cases (get_mission cmd.mission_id db)) [
    | inl missing ↦ absurd (ground (arith, h, missing))
    | inr (m, em) ↦ elim (Option-cases (get outcome_mission cmd.mission_id db.mission_outcomes)) [
      | inl nothing ↦
          rw (em, get_outcome_lem cmd.mission_id db u, nothing)
            (snoc-IsUnique outcome_mission (new_outcome cmd oid now) db.mission_outcomes nothing u)
      | inr (x, ex) ↦ absurd (ground (arith, h, em, ex, get_outcome_lem cmd.mission_id db u))
    ]
  ]

-- The other requests leave the outcomes.
module _ (db : Db) where
  create_outcomes :
      (cmd : CreateMissionCommand) (mid token : ℕ)
      → (create_mission cmd mid token db).1.mission_outcomes ≡ db.mission_outcomes
  unfolding create_mission require_user save_mission
  create_outcomes cmd mid token = ground arith

  approve_outcomes : (mid : ℕ) → (approve_mission mid db).1.mission_outcomes ≡ db.mission_outcomes
  unfolding approve_mission save_mission
  approve_outcomes mid = ground arith

  patch_outcomes :
      (mid : ℕ) (body : UpdateMissionBody)
      → (patch_mission mid body db).1.mission_outcomes ≡ db.mission_outcomes
  unfolding patch_mission save_mission
  patch_outcomes mid body = ground arith

  cancel_outcomes :
      (mid : ℕ) (reason : Text) (by_user : ℕ) (now : Datetime)
      → (cancel_mission mid reason by_user now db).1.mission_outcomes ≡ db.mission_outcomes
  unfolding cancel_mission save_mission
  cancel_outcomes mid reason by_user now = ground arith

  reassign_outcomes :
      (mid inspector actor : ℕ) (now : Datetime) (new_id token : ℕ)
      → (reassign_inspector mid inspector actor now new_id token db).1.mission_outcomes
        ≡ db.mission_outcomes
  unfolding reassign_inspector require_user save_mission
  reassign_outcomes mid inspector actor now new_id token = ground arith

  signal_outcomes :
      (mid author : ℕ) (message : Text) (xid : ℕ) (now : Datetime)
      → (create_exception mid author message xid now db).1.mission_outcomes ≡ db.mission_outcomes
  unfolding create_exception add_exception
  signal_outcomes mid author message xid now = ground arith

same-OneEach :
    {A : Type 0} (m : Exec A) (db : Db)
    → (m db).1.mission_outcomes ≡ db.mission_outcomes
    → OneEach db
    → OneEach (transaction m db).1
same-OneEach m db e u = transaction_keeps OneEach m db u λ a h. rw e u

serve-OneEach : (r : Request) (db : Db) → OneEach db → OneEach (serve r db)
unfolding serve check_in confirm_host check_out_visit
serve-OneEach (arrive fl cmd draw) db u =
    replayed_keeps OneEach (Scope.check_in cmd.mission_id) cmd.client_request_id
      (check_in_fresh fl cmd draw) db u
      λ p e h. rw (check_in-SamePlans fl cmd draw db p h).outcomes u
serve-OneEach (confirm w cmd) db u =
    replayed_keeps OneEach (Scope.confirm_host cmd.site_visit_id) cmd.client_request_id
      (confirm_fresh w cmd) db u λ p e h. rw (confirm-SamePlans w cmd db p h).outcomes u
serve-OneEach (leave cmd now) db u =
    replayed_keeps OneEach (Scope.check_out cmd.site_visit_id) cmd.client_request_id
      (check_out_fresh cmd now) db u λ p e h. rw (check_out-SamePlans cmd now db p h).outcomes u
serve-OneEach (plan cmd mid token) db u =
    same-OneEach (create_mission cmd mid token) db (create_outcomes db cmd mid token) u
serve-OneEach (approve mid) db u = same-OneEach (approve_mission mid) db (approve_outcomes db mid) u
serve-OneEach (cancel mid reason by_user now) db u =
    same-OneEach (cancel_mission mid reason by_user now) db
      (cancel_outcomes db mid reason by_user now) u
serve-OneEach (report cmd oid now) db u =
    transaction_keeps OneEach (submit_outcome cmd oid now) db u (submit-OneEach cmd oid now db u)
serve-OneEach (reassign mid inspector actor now new_id token) db u =
    same-OneEach (reassign_inspector mid inspector actor now new_id token) db
      (reassign_outcomes db mid inspector actor now new_id token) u
serve-OneEach (signal mid author message xid now) db u =
    same-OneEach (create_exception mid author message xid now) db
      (signal_outcomes db mid author message xid now) u
serve-OneEach (patch mid body) db u =
    same-OneEach (patch_mission mid body) db (patch_outcomes db mid body) u

serve_all-OneEach : (rs : List Request) (db : Db) → OneEach db → OneEach (serve_all rs db)
unfolding serve_all
serve_all-OneEach [] db u = u
serve_all-OneEach (r ∷ rs) db u = serve_all-OneEach rs (serve r db) (serve-OneEach r db u)

refused :
    (db : Db) (cmd : SubmitMissionOutcomeCommand) (oid : ℕ) (now : Datetime) (m : Mission)
    (o : MissionOutcome)
    → OneEach db
    → get_mission cmd.mission_id db ≡ some m
    → get outcome_mission cmd.mission_id db.mission_outcomes ≡ some o
    → transaction (submit_outcome cmd oid now) db ≡ (err (raised_as ErrorClass.conflict), db)
unfolding transaction submit_outcome
refused db cmd oid now m o u found reported =
    rw (found, get_outcome_lem cmd.mission_id db u, reported)

-- After any requests, from a database with establishments and users alone: no mission has two
-- outcomes, and a report on a mission that has one is a conflict and writes nothing.
pub one_outcome_each :
    (es : List Establishment) (us : List User) (rs : List Request)
    (cmd : SubmitMissionOutcomeCommand) (oid : ℕ) (now : Datetime) (m : Mission)
    (o : MissionOutcome)
    → get_mission cmd.mission_id (serve_all rs (start es us)) ≡ some m
    → get outcome_mission cmd.mission_id (serve_all rs (start es us)).mission_outcomes ≡ some o
    → let db = serve_all rs (start es us) in
      OneEach db
      × (transaction (submit_outcome cmd oid now) db ≡ (err (raised_as ErrorClass.conflict), db))
one_outcome_each es us rs cmd oid now m o found reported =
    let u = serve_all-OneEach rs (start es us) tt in
    (u, refused (serve_all rs (start es us)) cmd oid now m o u found reported)
