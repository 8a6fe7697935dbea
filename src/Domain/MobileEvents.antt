-- ===== src/Domain/MobileEvents.antt =====
-- The rows of `MobileDeviceModel` and `MobileEventModel` of
-- infrastructure/persistence/sqlalchemy/models.py.
use sigis_backend.Base.{ℕ, Option, Text}
use sigis_backend.Base.Float.{Float}
use sigis_backend.Time.{Datetime}

pub record MobileDevice : Type 0 where
  pub id : ℕ
  pub user_id : ℕ
  pub public_key_ed25519 : Text
  pub created_at : Datetime
  pub revoked_at : Option Datetime

pub record MobileEvent : Type 0 where
  pub id : ℕ
  pub event_type : Text
  pub mission_id : ℕ
  pub site_visit_id : Option ℕ
  pub actor_user_id : ℕ
  pub device_id : ℕ
  pub client_request_id : Text
  pub captured_at_client : Datetime
  pub received_at_server : Datetime
  pub gps_lat : Option Float
  pub gps_lon : Option Float
  pub gps_accuracy_m : Option Float
  pub gps_provider : Option Text
  pub selfie_sha256 : Option Text
  pub selfie_mime : Option Text
  pub selfie_w : Option ℕ
  pub selfie_h : Option ℕ
  pub prev_event_hash : Option Text
  pub event_hash : Text
  pub signature_ed25519 : Text
  pub raw_json : Text
