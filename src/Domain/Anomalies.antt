-- ===== src/Domain/Anomalies.antt =====
-- domain/shared/anomaly_detection.py. The descriptions are left out; the reserved ids are numbers.
use sigis_backend.Base.{
  ◌&&◌, ◌+◌, Bool, ℕ, Option, none, some, List, [], ◌∷◌, ◌++◌, ltb, if◌then◌else◌,
}
use sigis_backend.Base.Float.{Float, FloatOps}
use sigis_backend.Base.Int.{ℤ}
use sigis_backend.Time.{Datetime, instant, minutes, elapsed}
use sigis_backend.Domain.Geo.{haversine_m}

pub data AnomalyType : Type 0 where
  gps_clone visit_too_short gps_poor_quality rapid_checkins impossible_travel : AnomalyType
  device_key_mismatch : AnomalyType

pub data AnomalySeverity : Type 0 where
  low medium high : AnomalySeverity

pub data AnomalyEntity : Type 0 where
  site_visit presence_proof : AnomalyEntity

pub record Anomaly : Type 0 where
  pub id : ℕ
  pub kind : AnomalyType
  pub severity : AnomalySeverity
  pub entity_type : AnomalyEntity
  pub entity_id : ℕ
  pub inspector_id : Option ℕ
  pub detected_at : Datetime

-- `now` is the clock reading of `__post_init__`.
unfoldable pub validate_visit_duration : Datetime → Datetime → ℕ → Datetime → Option (List Anomaly)
unfolding instant
validate_visit_duration checked_in_at checked_out_at min_duration_minutes now =
    if ltb (instant checked_out_at) (instant checked_in_at + minutes min_duration_minutes)
    then some (
        record {
          id = 1;
          kind = AnomalyType.visit_too_short;
          severity = AnomalySeverity.low;
          entity_type = AnomalyEntity.site_visit;
          entity_id = 0;
          inspector_id = none;
          detected_at = now;
        }
        ∷ [])
    else none

unfoldable pub validate_gps_quality : FloatOps → Option Float → Datetime → Option (List Anomaly)
validate_gps_quality fl none now = none
validate_gps_quality fl (some accuracy_m) now =
    if fl.le accuracy_m (fl.of_int 100)
    then none
    else some (
        record {
          id = 2;
          kind = AnomalyType.gps_poor_quality;
          severity = AnomalySeverity.medium;
          entity_type = AnomalyEntity.presence_proof;
          entity_id = 0;
          inspector_id = none;
          detected_at = now;
        }
        ∷ [])

-- An element of `prev_locations`.
pub record Location : Type 0 where
  pub lat : Float
  pub lon : Float
  pub time : Datetime

abbrev clone_of : ℕ → Datetime → Anomaly
clone_of inspector now = record {
  id = 3;
  kind = AnomalyType.gps_clone;
  severity = AnomalySeverity.high;
  entity_type = AnomalyEntity.presence_proof;
  entity_id = 0;
  inspector_id = some inspector;
  detected_at = now;
}

-- `anomalies if anomalies else None`
abbrev pub or_none : List Anomaly → Option (List Anomaly)
or_none [] = none
or_none (a ∷ rest) = some (a ∷ rest)

-- `total_minutes` is `timedelta.total_seconds() / 60`.
module _ (fl : FloatOps) (total_minutes : ℤ → Float) (inspector : ℕ) (now : Datetime)
    (here : Location) (max_radius_meters min_time_gap_minutes : Float) where
  unfoldable pub is_clone : Location → Bool
  is_clone prev =
      fl.le (haversine_m fl here.lat here.lon prev.lat prev.lon) max_radius_meters
      && fl.le (total_minutes (elapsed here.time prev.time)) min_time_gap_minutes

  unfoldable pub clones : List Anomaly → List Location → List Anomaly
  unfolding is_clone
  clones found [] = found
  clones found (prev ∷ rest) =
      clones (if is_clone prev then found ++ clone_of inspector now ∷ [] else found) rest

  unfoldable pub detect_gps_clone_scenario : List Location → Option (List Anomaly)
  unfolding clones
  detect_gps_clone_scenario prev_locations = or_none (clones [] prev_locations)
