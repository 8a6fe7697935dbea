-- ===== src/Domain/Visit.antt =====
-- domain/site_visit/site_visit.py and transitions.py. A transition returns the visit that it
-- would leave, or the exception that it raises before it writes to the visit.
pub mod Lifecycle
pub mod Order
use sigis_backend.Base.{ℕ, Bool, true, false, ◌&&◌, Option, none, some, is_some, if◌then◌else◌}
use sigis_backend.Base.Float.{Float}
use sigis_backend.Time.{Datetime, aware, dt_le, to_utc}
use sigis_backend.Errors.{Result, ok, err, raised, raised_as, ErrorClass, Code}

pub data HostValidationMode : Type 0 where
  app_gps qr_static sms_shortcode : HostValidationMode

pub data SiteVisitStatus : Type 0 where
  scheduled checked_in pending_host copresence_ok checked_out completed cancelled : SiteVisitStatus

pub record SiteVisit : Type 0 where
  pub id : ℕ
  pub mission_id : ℕ
  pub status : SiteVisitStatus
  pub host_validation_mode : Option HostValidationMode
  pub checked_in_at : Option Datetime
  pub checked_out_at : Option Datetime
  pub inspector_lat : Option Float
  pub inspector_lon : Option Float
  pub host_lat : Option Float
  pub host_lon : Option Float

-- `SiteVisit(id=..., mission_id=...)`, with the defaults of the other fields.
unfoldable pub new_visit : ℕ → ℕ → SiteVisit
new_visit vid mid = record {
  id = vid;
  mission_id = mid;
  status = SiteVisitStatus.scheduled;
  host_validation_mode = none;
  checked_in_at = none;
  checked_out_at = none;
  inspector_lat = none;
  inspector_lon = none;
  host_lat = none;
  host_lon = none;
}

abbrev pub is_scheduled : SiteVisitStatus → Bool
is_scheduled SiteVisitStatus.scheduled = true
is_scheduled SiteVisitStatus.checked_in = false
is_scheduled SiteVisitStatus.pending_host = false
is_scheduled SiteVisitStatus.copresence_ok = false
is_scheduled SiteVisitStatus.checked_out = false
is_scheduled SiteVisitStatus.completed = false
is_scheduled SiteVisitStatus.cancelled = false

abbrev pub is_pending_host : SiteVisitStatus → Bool
is_pending_host SiteVisitStatus.scheduled = false
is_pending_host SiteVisitStatus.checked_in = false
is_pending_host SiteVisitStatus.pending_host = true
is_pending_host SiteVisitStatus.copresence_ok = false
is_pending_host SiteVisitStatus.checked_out = false
is_pending_host SiteVisitStatus.completed = false
is_pending_host SiteVisitStatus.cancelled = false

abbrev pub is_copresence_ok : SiteVisitStatus → Bool
is_copresence_ok SiteVisitStatus.scheduled = false
is_copresence_ok SiteVisitStatus.checked_in = false
is_copresence_ok SiteVisitStatus.pending_host = false
is_copresence_ok SiteVisitStatus.copresence_ok = true
is_copresence_ok SiteVisitStatus.checked_out = false
is_copresence_ok SiteVisitStatus.completed = false
is_copresence_ok SiteVisitStatus.cancelled = false

unfoldable pub ensure_mission_window : Datetime → Datetime → Datetime → Result (Unit {0})
unfolding aware
ensure_mission_window now window_start window_end =
    let ws = aware window_start in
    let we = aware window_end in
    let nw = aware now in
    if dt_le ws nw && dt_le nw we
    then ok tt
    else err (raised ErrorClass.domain_error_base Code.mission_expired)

unfoldable pub start_check_in : SiteVisit → Datetime → HostValidationMode → Result SiteVisit
start_check_in visit now mode =
    if is_scheduled visit.status
    then ok (record visit {
      host_validation_mode = some mode;
      checked_in_at = some (to_utc now);
      status = SiteVisitStatus.pending_host;
    })
    else err (raised_as ErrorClass.invariant_violation)

unfoldable pub mark_copresence_ok : SiteVisit → Result SiteVisit
mark_copresence_ok visit =
    if is_pending_host visit.status
    then ok (record visit { status = SiteVisitStatus.copresence_ok })
    else err (raised_as ErrorClass.invariant_violation)

unfoldable pub check_out : SiteVisit → Datetime → Result SiteVisit
check_out visit now =
    if is_copresence_ok visit.status
    then if is_some visit.checked_out_at
      then err (raised_as ErrorClass.already_checked_out)
      else ok
          (record visit { checked_out_at = some (to_utc now); status = SiteVisitStatus.completed })
    else err (raised_as ErrorClass.invariant_violation)
