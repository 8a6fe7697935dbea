-- ===== src/Domain/Establishment.antt =====
-- domain/establishment/establishment.py.
use sigis_backend.Base.{ℕ, Option, Text}
use sigis_backend.Base.Float.{Float}
use sigis_backend.Time.{Datetime}

pub record Establishment : Type 0 where
  pub id : ℕ
  pub name : Text
  pub center_lat : Float
  pub center_lon : Float
  pub radius_strict_m : Float
  pub radius_relaxed_m : Float
  pub geometry_version : ℕ
  pub minesec_code : Option Text
  pub establishment_type : Text
  pub contact_email : Option Text
  pub contact_phone : Option Text
  pub territory_code : Option Text
  pub parent_establishment_id : Option ℕ
  pub designated_host_user_id : Option ℕ
  pub geometry_validated_at : Option Datetime
  pub geometry_validated_by_user_id : Option ℕ
