-- ===== src/Api/Missions.antt =====
-- The route `update_mission` of api/v1/missions.py, which changes the fields that are given.
pub mod Patch
use sigis_backend.Base.{
  ℕ, Option, none, some, is_some, [], ◌∷◌, Text, text_eq, or_else, if◌then◌else◌,
}
use sigis_backend.Time.{Datetime}
use sigis_backend.Errors.{Result, ok, err, ErrorClass, raised_as}
use sigis_backend.Domain.Mission.{Mission, MissionStatus}
use sigis_backend.Store.{Exec, pure, gets, lift, or_raise, ◌>>=◌, ◌>>◌}
use sigis_backend.Store.Missions.{get_mission, save_mission}
use sigis_backend.Store.Missions.Queries.{status_text}

pub record UpdateMissionBody : Type 0 where
  pub window_start : Option Datetime
  pub window_end : Option Datetime
  pub status : Option Text
  pub sms_code : Option Text
  pub designated_host_user_id : Option ℕ
  pub objective : Option Text
  pub plan_reference : Option Text

-- `MissionStatus(text)`, `none` where it raises `ValueError`.
unfoldable pub status_of : Text → Option MissionStatus
unfolding status_text
status_of s =
    if text_eq s (status_text MissionStatus.draft)
    then some MissionStatus.draft
    else if text_eq s (status_text MissionStatus.planned)
    then some MissionStatus.planned
    else if text_eq s (status_text MissionStatus.in_progress)
    then some MissionStatus.in_progress
    else if text_eq s (status_text MissionStatus.completed)
    then some MissionStatus.completed
    else if text_eq s (status_text MissionStatus.cancelled)
    then some MissionStatus.cancelled
    else none

abbrev status_or_raise : Option MissionStatus → Result MissionStatus
status_or_raise none = err (raised_as ErrorClass.conflict)
status_or_raise (some s) = ok s

abbrev pub new_status : Option Text → MissionStatus → Result MissionStatus
new_status none old = ok old
new_status (some s) old = status_or_raise (status_of s)

-- `if body.f is not None: mission.f = body.f`
abbrev pub or_old : {A : Type 0} → Option A → A → A
or_old none old = old
or_old (some a) old = a

unfoldable pub patched : UpdateMissionBody → MissionStatus → Mission → Mission
patched body status mission = record mission {
  window_start = or_old body.window_start mission.window_start;
  window_end = or_old body.window_end mission.window_end;
  status = status;
  sms_code = or_else body.sms_code mission.sms_code;
  designated_host_user_id = or_else body.designated_host_user_id mission.designated_host_user_id;
  objective = or_else body.objective mission.objective;
  plan_reference = or_else body.plan_reference mission.plan_reference;
}

-- `update_mission`
unfoldable pub patch_mission : ℕ → UpdateMissionBody → Exec Mission
unfolding patched status_of
patch_mission mid body = do
  found ← gets (get_mission mid)
  mission ← or_raise found (raised_as ErrorClass.not_found)
  status ← lift (new_status body.status mission.status)
  save_mission (patched body status mission)
  pure (patched body status mission)
