-- ===== src/Domain/Presence.antt =====
-- domain/presence/models.py and domain/shared/value_objects/geofence_status.py.
use sigis_backend.Base.{ℕ}
use sigis_backend.Base.Float.{Float}
use sigis_backend.Time.{Datetime}

pub data GeofenceStatus : Type 0 where
  ok approximate rejected : GeofenceStatus

pub record PresenceProof : Type 0 where
  pub id : ℕ
  pub site_visit_id : ℕ
  pub actor_user_id : ℕ
  pub recorded_at : Datetime
  pub latitude : Float
  pub longitude : Float
  pub geofence_status : GeofenceStatus

pub record CoPresenceEvent : Type 0 where
  pub id : ℕ
  pub site_visit_id : ℕ
  pub validated_at : Datetime
