-- ===== src/UseCases/CheckIn.antt =====
-- application/use_cases/check_in_inspector.py.
pub mod Accepts
pub mod Answers
use sigis_backend.Base.{ℕ, ◌+◌, ◌*◌, Bool, true, false, Option, none, some, Text, ◌==◌, not}
use sigis_backend.Base.Float.{Float, FloatOps}
use sigis_backend.Time.{Datetime, minutes}
use sigis_backend.Errors.{Result, ok, err, ErrorClass, raised_as}
use sigis_backend.Domain.Mission.{Mission, is_draft}
use sigis_backend.Domain.Visit.{
  SiteVisit, HostValidationMode, new_visit, is_scheduled, ensure_mission_window, start_check_in,
}
use sigis_backend.Domain.Presence.{GeofenceStatus}
use sigis_backend.Domain.Establishment.{Establishment}
use sigis_backend.Domain.CoPresence.{CoPresenceParams}
use sigis_backend.Domain.Geo.{haversine_m, geofence_status}
use sigis_backend.Store.{
  Db, Exec, Scope, Payload, pure, lift, gets, or_raise, raise_if, ◌>>=◌, ◌>>◌,
}
use sigis_backend.Store.Missions.{get_mission, get_establishment}
use sigis_backend.Store.Visits.{get_visit_by_mission, save_visit}
use sigis_backend.Store.Idempotency.{get_response, save_response}
use sigis_backend.Store.Evidence.{add_proof}

pub record CheckInInspectorCommand : Type 0 where
  pub mission_id : ℕ
  pub inspector_user_id : ℕ
  pub latitude : Float
  pub longitude : Float
  pub client_request_id : Text
  pub host_validation_mode : HostValidationMode

-- The clock reading and the two UUIDs that one execution draws.
pub record CheckInDraw : Type 0 where
  pub now : Datetime
  pub visit_id : ℕ
  pub proof_id : ℕ

abbrev pub is_rejected : GeofenceStatus → Bool
is_rejected GeofenceStatus.ok = false
is_rejected GeofenceStatus.approximate = false
is_rejected GeofenceStatus.rejected = true

-- `visit is not None and visit.status != SiteVisitStatus.SCHEDULED`
abbrev pub is_underway : Option SiteVisit → Bool
is_underway none = false
is_underway (some v) = not (is_scheduled v.status)

abbrev pub visit_or_new : Option SiteVisit → ℕ → ℕ → SiteVisit
visit_or_new none vid mid = new_visit vid mid
visit_or_new (some v) vid mid = v

-- The distance of the inspector from the centre, against the radii of the establishment.
unfoldable pub inspector_geofence :
    FloatOps → CheckInInspectorCommand → Establishment → GeofenceStatus
inspector_geofence fl cmd est =
    geofence_status fl (haversine_m fl cmd.latitude cmd.longitude est.center_lat est.center_lon)
      (record {
        radius_meters_strict = est.radius_strict_m;
        radius_meters_relaxed = est.radius_relaxed_m;
      })

-- The checks, up to the geofence status.
unfoldable pub check_in_guards :
    FloatOps → CheckInInspectorCommand → Datetime → Exec (Mission × GeofenceStatus)
unfolding inspector_geofence
check_in_guards fl cmd now = do
  found ← gets (get_mission cmd.mission_id)
  mission ← or_raise found (raised_as ErrorClass.not_found)
  raise_if (is_draft mission.status) (raised_as ErrorClass.mission_approval_required)
  raise_if (not (mission.inspector_id == cmd.inspector_user_id)) (raised_as ErrorClass.forbidden)
  place ← gets (get_establishment mission.establishment_id)
  est ← or_raise place (raised_as ErrorClass.not_found)
  lift (ensure_mission_window now mission.window_start mission.window_end)
  raise_if (is_rejected (inspector_geofence fl cmd est)) (raised_as ErrorClass.geofence_rejected)
  pure (mission, inspector_geofence fl cmd est)

-- The visit that is saved.
unfoldable pub check_in_visit : CheckInInspectorCommand → CheckInDraw → Mission → Exec SiteVisit
check_in_visit cmd draw mission = do
  found ← get_visit_by_mission mission.id
  raise_if (is_underway found) (raised_as ErrorClass.conflict)
  visit ← lift (
      start_check_in (visit_or_new found draw.visit_id mission.id) draw.now
        cmd.host_validation_mode)
  pure (record visit { inspector_lat = some cmd.latitude; inspector_lon = some cmd.longitude })

-- The rows that are written, and the answer.
unfoldable pub check_in_write :
    CheckInInspectorCommand → CheckInDraw → GeofenceStatus → SiteVisit → Exec Payload
check_in_write cmd draw gf visit = do
  save_visit visit
  add_proof (record {
    id = draw.proof_id;
    site_visit_id = visit.id;
    actor_user_id = cmd.inspector_user_id;
    recorded_at = draw.now;
    latitude = cmd.latitude;
    longitude = cmd.longitude;
    geofence_status = gf;
  })
  let payload = Payload.checked_in visit.id gf visit.status
  save_response (Scope.check_in cmd.mission_id) cmd.client_request_id draw.now payload
  pure payload

unfoldable pub check_in_fresh : FloatOps → CheckInInspectorCommand → CheckInDraw → Exec Payload
check_in_fresh fl cmd draw = do
  (mission, gf) ← check_in_guards fl cmd draw.now
  visit ← check_in_visit cmd draw mission
  check_in_write cmd draw gf visit

-- `if cached is not None: return json.loads(cached)`
abbrev pub replay_or : Option Payload → Exec Payload → Exec Payload
replay_or none fresh = fresh
replay_or (some payload) fresh = pure payload

-- `CheckInInspector.execute`
unfoldable pub check_in : FloatOps → CheckInInspectorCommand → CheckInDraw → Exec Payload
check_in fl cmd draw = do
  cached ← get_response (Scope.check_in cmd.mission_id) cmd.client_request_id
  replay_or cached (check_in_fresh fl cmd draw)

unfoldable pub default_copresence_params : FloatOps → CoPresenceParams
default_copresence_params fl = record {
  max_delay = minutes 15;
  max_distance_meters = fl.of_int 100;
  reinforce_under_meters = some (fl.of_int 50);
}
