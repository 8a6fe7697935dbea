-- ===== src/Safety/Missions.antt =====
-- The mission use cases leave the visits, their evidence and the stored answers alone
-- (application/use_cases/create_mission.py, mission_workflow.py, create_exception_request.py).
use sigis_backend.Base.{ℕ, ◌≡◌, Text, arith}
use sigis_backend.Time.{Datetime}
use sigis_backend.Api.Missions.{UpdateMissionBody, patch_mission}
use sigis_backend.Store.{Db, Exec, transaction}
use sigis_backend.Store.Missions.{save_mission}
use sigis_backend.Store.Reports.{get_outcome_by_mission, save_outcome, add_exception}
use sigis_backend.UseCases.Missions.{
  CreateMissionCommand, SubmitMissionOutcomeCommand, require_user, create_mission, approve_mission,
  cancel_mission, submit_outcome, reassign_inspector, create_exception,
}
use sigis_backend.Safety.Invariant.{IsSound, same_visits-IsSound}
use sigis_backend.Safety.Rollback.{transaction_keeps}

pub record SameEvidence (a b : Db) : Type 0 where
  pub visits : b.site_visits ≡ a.site_visits
  pub proofs : b.presence_proofs ≡ a.presence_proofs
  pub events : b.copresence_events ≡ a.copresence_events
  pub idempotency : b.idempotency ≡ a.idempotency
  pub tokens : b.used_qr_jti ≡ a.used_qr_jti

pub SameEvidence-IsSound :
    {A : Type 0} (m : Exec A) (db : Db)
    → SameEvidence db (m db).1
    → IsSound db
    → IsSound (transaction m db).1
SameEvidence-IsSound m db e s = transaction_keeps IsSound m db s λ a h.
    same_visits-IsSound db (m db).1 s e.visits (rw e.idempotency s.keys)
      (record { proofs = λ i p. rw e.proofs p; events = λ i p. rw e.events p })

module _ (db : Db) where
  pub create_mission-SameEvidence :
      (cmd : CreateMissionCommand) (mid token : ℕ)
      → SameEvidence db (create_mission cmd mid token db).1
  unfolding create_mission require_user save_mission
  create_mission-SameEvidence cmd mid token = ground arith

  pub patch_mission-SameEvidence :
      (mid : ℕ) (body : UpdateMissionBody) → SameEvidence db (patch_mission mid body db).1
  unfolding patch_mission save_mission
  patch_mission-SameEvidence mid body = ground arith

  pub approve_mission-SameEvidence : (mid : ℕ) → SameEvidence db (approve_mission mid db).1
  unfolding approve_mission save_mission
  approve_mission-SameEvidence mid = ground arith

  pub cancel_mission-SameEvidence :
      (mid : ℕ) (reason : Text) (by_user : ℕ) (now : Datetime)
      → SameEvidence db (cancel_mission mid reason by_user now db).1
  unfolding cancel_mission save_mission
  cancel_mission-SameEvidence mid reason by_user now = ground arith

  pub submit_outcome-SameEvidence :
      (cmd : SubmitMissionOutcomeCommand) (oid : ℕ) (now : Datetime)
      → SameEvidence db (submit_outcome cmd oid now db).1
  unfolding submit_outcome get_outcome_by_mission save_outcome
  submit_outcome-SameEvidence cmd oid now = ground arith

  pub reassign_inspector-SameEvidence :
      (mid inspector actor : ℕ) (now : Datetime) (new_id token : ℕ)
      → SameEvidence db (reassign_inspector mid inspector actor now new_id token db).1
  unfolding reassign_inspector require_user save_mission
  reassign_inspector-SameEvidence mid inspector actor now new_id token = ground arith

  pub create_exception-SameEvidence :
      (mid author : ℕ) (message : Text) (xid : ℕ) (now : Datetime)
      → SameEvidence db (create_exception mid author message xid now db).1
  unfolding create_exception add_exception
  create_exception-SameEvidence mid author message xid now = ground arith
