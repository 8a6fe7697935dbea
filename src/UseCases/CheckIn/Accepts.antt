-- ===== src/UseCases/CheckIn/Accepts.antt =====
-- When a check-in (application/use_cases/check_in_inspector.py) is accepted.
use sigis_backend.Base.{◌≤◌, ◌≡◌, ◌≢◌, refl, some, if◌then◌else◌, arith}
use sigis_backend.Base.Float.{FloatOps}
use sigis_backend.Time.{Datetime, instant}
use sigis_backend.Errors.{ok}
use sigis_backend.Domain.Mission.{Mission, MissionStatus}
use sigis_backend.Domain.Visit.{ensure_mission_window}
use sigis_backend.Domain.Presence.{GeofenceStatus}
use sigis_backend.Domain.Geo.{haversine_m, geofence_status}
use sigis_backend.Domain.Establishment.{Establishment}
use sigis_backend.Store.{Db}
use sigis_backend.Store.Missions.{get_mission, get_establishment}
use sigis_backend.UseCases.CheckIn.{CheckInInspectorCommand, check_in_guards, inspector_geofence}

-- The window test in instants: both bounds belong to the window.
pub window_ok :
    (now start end : Datetime)
    → instant start ≤ instant now
    → instant now ≤ instant end
    → ensure_mission_window now start end ≡ ok tt
unfolding ensure_mission_window instant
window_ok now start end a b = ground arith

pub window_bounds :
    (now start end : Datetime)
    → ensure_mission_window now start end ≡ ok tt
    → (instant start ≤ instant now) × (instant now ≤ instant end)
unfolding ensure_mission_window instant
window_bounds now start end h = ground arith

-- How near the inspector is to the centre of the place: within its strict radius, else within its
-- relaxed one, else too far.
unfoldable pub position_status : FloatOps → CheckInInspectorCommand → Establishment → GeofenceStatus
position_status fl cmd e =
    let distance = haversine_m fl cmd.latitude cmd.longitude e.center_lat e.center_lon in
    if fl.le distance e.radius_strict_m
    then GeofenceStatus.ok
    else if fl.le distance e.radius_relaxed_m
    then GeofenceStatus.approximate
    else GeofenceStatus.rejected

pub geofence_position :
    (fl : FloatOps) (cmd : CheckInInspectorCommand) (e : Establishment)
    → inspector_geofence fl cmd e ≡ position_status fl cmd e
unfolding inspector_geofence geofence_status position_status
geofence_position fl cmd e = refl

-- What a check-in asks of the database, the clock and the position.
pub record IsAdmissible (fl : FloatOps) (cmd : CheckInInspectorCommand) (now : Datetime) (db : Db)
    (m : Mission) (e : Establishment) : Type 0 where
  pub found : get_mission cmd.mission_id db ≡ some m
  pub not_draft : m.status ≢ MissionStatus.draft
  pub assigned : m.inspector_id ≡ cmd.inspector_user_id
  pub place : get_establishment m.establishment_id db ≡ some e
  pub opened : instant m.window_start ≤ instant now
  pub open_still : instant now ≤ instant m.window_end
  pub inside : position_status fl cmd e ≢ GeofenceStatus.rejected

module _ (fl : FloatOps) (cmd : CheckInInspectorCommand) (now : Datetime) (db : Db) (m : Mission)
    (e : Establishment) where
  pub guards_pass :
      IsAdmissible fl cmd now db m e
      → check_in_guards fl cmd now db ≡ (ok (m, position_status fl cmd e), db)
  unfolding check_in_guards
  guards_pass h = ground (
    arith,
    window_ok now m.window_start m.window_end h.opened h.open_still,
    geofence_position fl cmd e,
  )

  pub guards_need :
      (gf : GeofenceStatus)
      → get_mission cmd.mission_id db ≡ some m
      → get_establishment m.establishment_id db ≡ some e
      → (check_in_guards fl cmd now db).0 ≡ ok (m, gf)
      → IsAdmissible fl cmd now db m e
  unfolding check_in_guards
  guards_need gf p q h =
      ground (arith, window_bounds now m.window_start m.window_end, geofence_position fl cmd e)
