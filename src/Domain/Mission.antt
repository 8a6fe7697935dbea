-- ===== src/Domain/Mission.antt =====
-- domain/mission/mission.py and mission_outcome.py. An id is a UUID, a number below 2 ^ 128 that
-- the program only compares.
use sigis_backend.Base.{ℕ, Bool, true, false, Option, Text}
use sigis_backend.Time.{Datetime}

pub data MissionStatus : Type 0 where
  draft planned in_progress completed cancelled : MissionStatus

pub record Mission : Type 0 where
  pub id : ℕ
  pub establishment_id : ℕ
  pub inspector_id : ℕ
  pub window_start : Datetime
  pub window_end : Datetime
  pub status : MissionStatus
  pub host_token : Option ℕ
  pub sms_code : Option Text
  pub designated_host_user_id : Option ℕ
  pub objective : Option Text
  pub plan_reference : Option Text
  pub requires_approval : Bool
  pub cancellation_reason : Option Text
  pub cancelled_at : Option Datetime
  pub cancelled_by_user_id : Option ℕ
  pub previous_mission_id : Option ℕ

abbrev pub is_draft : MissionStatus → Bool
is_draft MissionStatus.draft = true
is_draft MissionStatus.planned = false
is_draft MissionStatus.in_progress = false
is_draft MissionStatus.completed = false
is_draft MissionStatus.cancelled = false

abbrev pub is_completed : MissionStatus → Bool
is_completed MissionStatus.draft = false
is_completed MissionStatus.planned = false
is_completed MissionStatus.in_progress = false
is_completed MissionStatus.completed = true
is_completed MissionStatus.cancelled = false

-- `status in (MissionStatus.COMPLETED, MissionStatus.CANCELLED)`
abbrev pub is_closed : MissionStatus → Bool
is_closed MissionStatus.draft = false
is_closed MissionStatus.planned = false
is_closed MissionStatus.in_progress = false
is_closed MissionStatus.completed = true
is_closed MissionStatus.cancelled = true

pub record MissionOutcome : Type 0 where
  pub id : ℕ
  pub mission_id : ℕ
  pub summary : Text
  pub notes : Option Text
  pub compliance_level : Option Text
  pub created_at : Datetime
  pub created_by_user_id : ℕ
