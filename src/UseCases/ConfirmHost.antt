-- ===== src/UseCases/ConfirmHost.antt =====
-- application/use_cases/confirm_host_presence.py.
use sigis_backend.Base.{ℕ, Bool, false, Option, none, some, Text, ◌==◌, not, or_else}
use sigis_backend.Base.Float.{Float, FloatOps}
use sigis_backend.Time.{Datetime}
use sigis_backend.Errors.{raised, raised_as, Failure, ErrorClass, Code}
use sigis_backend.Domain.Mission.{Mission, is_draft}
use sigis_backend.Domain.Visit.{
  SiteVisit, HostValidationMode, app_gps, qr_static, sms_shortcode, mark_copresence_ok,
}
use sigis_backend.Domain.Presence.{GeofenceStatus}
use sigis_backend.Domain.CoPresence.{
  assert_copresence_mode_a, assert_qr_token_valid, assert_sms_code_valid,
}
use sigis_backend.Domain.Geo.{haversine_m}
use sigis_backend.Store.{
  Exec, Scope, Payload, pure, raise, lift, gets, or_raise, raise_if, ◌>>=◌, ◌>>◌,
}
use sigis_backend.Store.Missions.{get_mission, get_establishment}
use sigis_backend.Store.Visits.{get_visit, save_visit}
use sigis_backend.Store.Idempotency.{get_response, save_response}
use sigis_backend.Store.Evidence.{add_proof, add_event, consume}
use sigis_backend.UseCases.CheckIn.{replay_or, default_copresence_params}
use sigis_backend.UseCases.HostQr.{Jwt, HostQrSettings, verify_host_qr_jwt}

pub record ConfirmHostCommand : Type 0 where
  pub site_visit_id : ℕ
  pub mission_id : ℕ
  pub host_user_id : ℕ
  pub client_request_id : Text
  pub latitude : Option Float
  pub longitude : Option Float
  pub qr_token : Option ℕ
  pub qr_jwt : Option Text
  pub sms_code : Option Text

-- The outside world of one execution: machine floats, the library `jwt` with the settings that it
-- is given, the clock, and the UUIDs that are drawn.
pub record ConfirmWorld : Type 0 where
  pub floats : FloatOps
  pub jwt : Jwt
  pub settings : HostQrSettings
  pub now : Datetime
  pub verify_now : Datetime
  pub proof_id : ℕ
  pub event_id : ℕ

-- `designated is not None and cmd.host_user_id != designated`
abbrev pub is_other_host : Option ℕ → ℕ → Bool
is_other_host none host = false
is_other_host (some d) host = not (host == d)

-- Mode A: both positions are known, in time and close enough.
unfoldable pub confirm_gps : ConfirmWorld → ConfirmHostCommand → SiteVisit → Exec SiteVisit
confirm_gps w cmd visit = do
  lat ← or_raise cmd.latitude (raised_as ErrorClass.conflict)
  lon ← or_raise cmd.longitude (raised_as ErrorClass.conflict)
  inspector_lat ← or_raise visit.inspector_lat Failure.assertion_error
  inspector_lon ← or_raise visit.inspector_lon Failure.assertion_error
  checked_in_at ← or_raise visit.checked_in_at Failure.assertion_error
  let dist = haversine_m w.floats inspector_lat inspector_lon lat lon
  lift (
      assert_copresence_mode_a w.floats checked_in_at w.now dist
        (default_copresence_params w.floats))
  pure (record visit { host_lat = some lat; host_lon = some lon })

-- Mode B with a signed token, used once.
unfoldable pub confirm_jwt : ConfirmWorld → Text → Mission → SiteVisit → Exec SiteVisit
confirm_jwt w token mission visit = do
  jti ← lift (verify_host_qr_jwt w.jwt w.settings token mission w.verify_now)
  consumed ← consume jti mission.id w.now
  raise_if (not consumed) (raised ErrorClass.copresence_rejected Code.invalid_qr_token)
  pure visit

-- Mode B with the bare token of the mission.
unfoldable pub confirm_token :
    ConfirmWorld → Option ℕ → Option ℕ → Mission → SiteVisit → Exec SiteVisit
confirm_token w (some given) (some expected) mission visit = do
  lift (assert_qr_token_valid given expected w.now mission.window_start mission.window_end)
  pure visit
confirm_token w (some given) none mission visit = raise (raised_as ErrorClass.conflict)
confirm_token w none expected mission visit = raise (raised_as ErrorClass.conflict)

unfoldable pub confirm_qr :
    ConfirmWorld → ConfirmHostCommand → Option Text → Mission → SiteVisit → Exec SiteVisit
unfolding confirm_jwt confirm_token
confirm_qr w cmd (some token) mission visit = confirm_jwt w token mission visit
confirm_qr w cmd none mission visit = confirm_token w cmd.qr_token mission.host_token mission visit

-- Mode C.
unfoldable pub confirm_sms :
    ConfirmWorld → ConfirmHostCommand → Mission → SiteVisit → Exec SiteVisit
confirm_sms w cmd mission visit = do
  sms_code ← or_raise cmd.sms_code (raised_as ErrorClass.conflict)
  lift (
      assert_sms_code_valid sms_code mission.sms_code w.now mission.window_start mission.window_end)
  pure visit

-- The three branches on the mode of the visit.
unfoldable pub confirm_mode :
    ConfirmWorld → ConfirmHostCommand → HostValidationMode → Mission → SiteVisit → Exec SiteVisit
unfolding confirm_gps confirm_qr confirm_sms
confirm_mode w cmd app_gps mission visit = confirm_gps w cmd visit
confirm_mode w cmd qr_static mission visit = confirm_qr w cmd cmd.qr_jwt mission visit
confirm_mode w cmd sms_shortcode mission visit = confirm_sms w cmd mission visit

-- The checks before the mode is looked at.
unfoldable pub confirm_guards : ConfirmHostCommand → Exec (SiteVisit × Mission × HostValidationMode)
confirm_guards cmd = do
  found ← gets (get_visit cmd.site_visit_id)
  visit ← or_raise found (raised_as ErrorClass.not_found)
  raise_if (not (visit.mission_id == cmd.mission_id)) (raised_as ErrorClass.conflict)
  planned ← gets (get_mission cmd.mission_id)
  mission ← or_raise planned (raised_as ErrorClass.not_found)
  raise_if (is_draft mission.status) (raised_as ErrorClass.mission_approval_required)
  place ← gets (get_establishment mission.establishment_id)
  est ← or_raise place (raised_as ErrorClass.not_found)
  raise_if
      (is_other_host (or_else mission.designated_host_user_id est.designated_host_user_id)
        cmd.host_user_id)
      (raised_as ErrorClass.host_not_authorized)
  mode ← or_raise visit.host_validation_mode (raised_as ErrorClass.conflict)
  pure (visit, mission, mode)

-- From the transition of the visit to the answer.
unfoldable pub confirm_write :
    ConfirmWorld → ConfirmHostCommand → HostValidationMode → SiteVisit → Exec Payload
confirm_write w cmd mode visit = do
  marked ← lift (mark_copresence_ok visit)
  save_visit marked
  lat ← or_raise (or_else cmd.latitude marked.inspector_lat) (raised_as ErrorClass.conflict)
  lon ← or_raise (or_else cmd.longitude marked.inspector_lon) (raised_as ErrorClass.conflict)
  add_proof (record {
    id = w.proof_id;
    site_visit_id = marked.id;
    actor_user_id = cmd.host_user_id;
    recorded_at = w.now;
    latitude = lat;
    longitude = lon;
    geofence_status = GeofenceStatus.ok;
  })
  add_event (record { id = w.event_id; site_visit_id = marked.id; validated_at = w.now }) mode
  let payload = Payload.confirmed marked.status marked.id
  save_response (Scope.confirm_host cmd.site_visit_id) cmd.client_request_id w.now payload
  pure payload

unfoldable pub confirm_fresh : ConfirmWorld → ConfirmHostCommand → Exec Payload
confirm_fresh w cmd = do
  (visit, mission, mode) ← confirm_guards cmd
  located ← confirm_mode w cmd mode mission visit
  confirm_write w cmd mode located

-- `ConfirmHostPresence.execute`
unfoldable pub confirm_host : ConfirmWorld → ConfirmHostCommand → Exec Payload
confirm_host w cmd = do
  cached ← get_response (Scope.confirm_host cmd.site_visit_id) cmd.client_request_id
  replay_or cached (confirm_fresh w cmd)
