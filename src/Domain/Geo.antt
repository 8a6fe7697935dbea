-- ===== src/Domain/Geo.antt =====
-- domain/shared/distance.py, geofence_rules.py and gps_quality.py.
use sigis_backend.Base.{Option, none, some, if◌then◌else◌}
use sigis_backend.Base.Float.{Float, FloatOps}
use sigis_backend.Domain.Presence.{GeofenceStatus}

pub record GeofenceParams : Type 0 where
  pub radius_meters_strict : Float
  pub radius_meters_relaxed : Float

pub data GpsScore : Type 0 where
  excellent good fair poor : GpsScore

module _ (fl : FloatOps) where
  unfoldable pub haversine_m : Float → Float → Float → Float → Float
  haversine_m lat1 lon1 lat2 lon2 =
      let r = fl.of_int 6371000 in
      let p1 = fl.radians lat1 in
      let p2 = fl.radians lat2 in
      let dphi = fl.radians (fl.sub lat2 lat1) in
      let dl = fl.radians (fl.sub lon2 lon1) in
      let a =
        fl.add (fl.square (fl.sin (fl.half dphi)))
          (fl.mul (fl.mul (fl.cos p1) (fl.cos p2)) (fl.square (fl.sin (fl.half dl)))) in
      fl.mul (fl.mul (fl.of_int 2) r) (fl.asin (fl.min (fl.of_int 1) (fl.sqrt a)))

  unfoldable pub geofence_status : Float → GeofenceParams → GeofenceStatus
  geofence_status distance_to_center_meters params =
      if fl.le distance_to_center_meters params.radius_meters_strict
      then GeofenceStatus.ok
      else if fl.le distance_to_center_meters params.radius_meters_relaxed
      then GeofenceStatus.approximate
      else GeofenceStatus.rejected

  unfoldable pub score_gps_accuracy : Option Float → GpsScore
  score_gps_accuracy none = GpsScore.fair
  score_gps_accuracy (some accuracy_m) =
      if fl.le accuracy_m (fl.of_int 5)
      then GpsScore.excellent
      else if fl.le accuracy_m (fl.of_int 25)
      then GpsScore.good
      else if fl.le accuracy_m (fl.of_int 100)
      then GpsScore.fair
      else GpsScore.poor
