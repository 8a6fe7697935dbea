-- ===== src/UseCases/Missions.antt =====
-- application/use_cases/create_mission.py, mission_workflow.py and create_exception_request.py.
use sigis_backend.Base.{
  ℕ, Bool, false, Option, none, some, [], ◌∷◌, Text, codes, take, not, is_some, if◌then◌else◌,
}
use sigis_backend.Base.Table.{get}
use sigis_backend.Time.{Datetime}
use sigis_backend.Errors.{ErrorClass, raised_as, ok, err}
use sigis_backend.Domain.Mission.{
  Mission, MissionOutcome, MissionStatus, is_draft, is_completed, is_closed,
}
use sigis_backend.Domain.Users.{User}
use sigis_backend.Domain.Exceptions.{ExceptionRequest, ExceptionRequestStatus}
use sigis_backend.Store.{Exec, pure, gets, or_raise, raise_if, ◌>>=◌, ◌>>◌}
use sigis_backend.Store.Missions.{get_mission, get_establishment, save_mission}
use sigis_backend.Store.Reports.{get_outcome_by_mission, save_outcome, add_exception}

pub record CreateMissionCommand : Type 0 where
  pub establishment_id : ℕ
  pub inspector_id : ℕ
  pub window_start : Datetime
  pub window_end : Datetime
  pub sms_code : Option Text
  pub objective : Option Text
  pub plan_reference : Option Text
  pub requires_approval : Bool
  pub designated_host_user_id : Option ℕ

-- `users.get_by_id`, which raises `NotFound`; only its effect is used here.
unfoldable pub require_user : ℕ → Exec (Unit {0})
require_user uid db = (
  if is_some (get (λ (u : User). u.id) uid db.users)
      then ok tt
      else err (raised_as ErrorClass.not_found),
  db,
)

-- The mission that `CreateMission.execute` builds, from two fresh UUIDs.
unfoldable pub new_mission : CreateMissionCommand → ℕ → ℕ → Mission
new_mission cmd mid token = record {
  id = mid;
  establishment_id = cmd.establishment_id;
  inspector_id = cmd.inspector_id;
  window_start = cmd.window_start;
  window_end = cmd.window_end;
  status = if cmd.requires_approval then MissionStatus.draft else MissionStatus.planned;
  host_token = some token;
  sms_code = cmd.sms_code;
  designated_host_user_id = cmd.designated_host_user_id;
  objective = cmd.objective;
  plan_reference = cmd.plan_reference;
  requires_approval = cmd.requires_approval;
  cancellation_reason = none;
  cancelled_at = none;
  cancelled_by_user_id = none;
  previous_mission_id = none;
}

-- `CreateMission.execute`
unfoldable pub create_mission : CreateMissionCommand → ℕ → ℕ → Exec Mission
unfolding new_mission
create_mission cmd mid token = do
  place ← gets (get_establishment cmd.establishment_id)
  est ← or_raise place (raised_as ErrorClass.not_found)
  require_user cmd.inspector_id
  save_mission (new_mission cmd mid token)
  pure (new_mission cmd mid token)

-- `ApproveMission.execute`
unfoldable pub approve_mission : ℕ → Exec Mission
approve_mission mid = do
  found ← gets (get_mission mid)
  mission ← or_raise found (raised_as ErrorClass.not_found)
  raise_if (not (is_draft mission.status)) (raised_as ErrorClass.conflict)
  let approved = record mission { status = MissionStatus.planned }
  save_mission approved
  pure approved

-- The four fields that a cancellation writes.
unfoldable pub cancel : Mission → Text → Datetime → ℕ → Mission
cancel mission reason now by_user = record mission {
  status = MissionStatus.cancelled;
  cancellation_reason = some reason;
  cancelled_at = some now;
  cancelled_by_user_id = some by_user;
}

-- `CancelMission.execute`
unfoldable pub cancel_mission : ℕ → Text → ℕ → Datetime → Exec Mission
unfolding cancel
cancel_mission mid reason by_user now = do
  found ← gets (get_mission mid)
  mission ← or_raise found (raised_as ErrorClass.not_found)
  raise_if (is_completed mission.status) (raised_as ErrorClass.conflict)
  let cancelled = cancel mission (take 4000 reason) now by_user
  save_mission cancelled
  pure cancelled

-- `notes[:8000] if notes else None`
abbrev short_notes : Option Text → Option Text
short_notes none = none
short_notes (some []) = none
short_notes (some (c ∷ s)) = some (take 8000 (c ∷ s))

pub record SubmitMissionOutcomeCommand : Type 0 where
  pub mission_id : ℕ
  pub summary : Text
  pub notes : Option Text
  pub compliance_level : Option Text
  pub author_user_id : ℕ

unfoldable pub new_outcome : SubmitMissionOutcomeCommand → ℕ → Datetime → MissionOutcome
new_outcome cmd oid now = record {
  id = oid;
  mission_id = cmd.mission_id;
  summary = take 8000 cmd.summary;
  notes = short_notes cmd.notes;
  compliance_level = cmd.compliance_level;
  created_at = now;
  created_by_user_id = cmd.author_user_id;
}

-- `SubmitMissionOutcome.execute`
unfoldable pub submit_outcome : SubmitMissionOutcomeCommand → ℕ → Datetime → Exec MissionOutcome
unfolding new_outcome
submit_outcome cmd oid now = do
  found ← gets (get_mission cmd.mission_id)
  mission ← or_raise found (raised_as ErrorClass.not_found)
  existing ← get_outcome_by_mission cmd.mission_id
  raise_if (is_some existing) (raised_as ErrorClass.conflict)
  save_outcome (new_outcome cmd oid now)
  pure (new_outcome cmd oid now)

-- The mission that takes over from `old`.
unfoldable pub reassigned : Mission → ℕ → ℕ → ℕ → Mission
reassigned old new_inspector mid token = record {
  id = mid;
  establishment_id = old.establishment_id;
  inspector_id = new_inspector;
  window_start = old.window_start;
  window_end = old.window_end;
  status = MissionStatus.planned;
  host_token = some token;
  sms_code = old.sms_code;
  designated_host_user_id = old.designated_host_user_id;
  objective = old.objective;
  plan_reference = old.plan_reference;
  requires_approval = false;
  cancellation_reason = none;
  cancelled_at = none;
  cancelled_by_user_id = none;
  previous_mission_id = some old.id;
}

abbrev pub reassign_reason : Text
reassign_reason = codes "Réaffectation vers une nouvelle mission."

-- `ReassignInspector.execute`
unfoldable pub reassign_inspector : ℕ → ℕ → ℕ → Datetime → ℕ → ℕ → Exec Mission
unfolding reassigned cancel
reassign_inspector mid new_inspector actor now new_id token = do
  found ← gets (get_mission mid)
  old ← or_raise found (raised_as ErrorClass.not_found)
  raise_if (is_closed old.status) (raised_as ErrorClass.conflict)
  require_user new_inspector
  save_mission (cancel old reassign_reason now actor)
  save_mission (reassigned old new_inspector new_id token)
  pure (reassigned old new_inspector new_id token)

unfoldable pub new_exception : ℕ → ℕ → Text → ℕ → Datetime → ExceptionRequest
new_exception mid author message xid now = record {
  id = xid;
  mission_id = mid;
  author_user_id = author;
  created_at = now;
  status = ExceptionRequestStatus.new;
  message = take 4000 message;
  assigned_to_user_id = none;
  internal_comment = none;
  sla_due_at = none;
  attachment_url = none;
}

-- `CreateExceptionRequest.execute`
unfoldable pub create_exception : ℕ → ℕ → Text → ℕ → Datetime → Exec ExceptionRequest
unfolding new_exception
create_exception mid author message xid now = do
  found ← gets (get_mission mid)
  mission ← or_raise found (raised_as ErrorClass.not_found)
  add_exception (new_exception mid author message xid now)
  pure (new_exception mid author message xid now)
