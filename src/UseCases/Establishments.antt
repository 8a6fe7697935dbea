-- ===== src/UseCases/Establishments.antt =====
-- `CreateEstablishment` of application/use_cases/create_mission.py.
use sigis_backend.Base.{ℕ, Option, none, Text}
use sigis_backend.Base.Float.{Float}
use sigis_backend.Domain.Establishment.{Establishment}
use sigis_backend.Store.{Exec, pure, ◌>>◌}
use sigis_backend.Store.Missions.{add_establishment}

pub record CreateEstablishmentCommand : Type 0 where
  pub name : Text
  pub center_lat : Float
  pub center_lon : Float
  pub radius_strict_m : Float
  pub radius_relaxed_m : Float
  pub minesec_code : Option Text
  pub establishment_type : Text
  pub contact_email : Option Text
  pub contact_phone : Option Text
  pub territory_code : Option Text
  pub parent_establishment_id : Option ℕ
  pub designated_host_user_id : Option ℕ

unfoldable pub new_establishment : CreateEstablishmentCommand → ℕ → Establishment
new_establishment cmd eid = record {
  id = eid;
  name = cmd.name;
  center_lat = cmd.center_lat;
  center_lon = cmd.center_lon;
  radius_strict_m = cmd.radius_strict_m;
  radius_relaxed_m = cmd.radius_relaxed_m;
  geometry_version = 1;
  minesec_code = cmd.minesec_code;
  establishment_type = cmd.establishment_type;
  contact_email = cmd.contact_email;
  contact_phone = cmd.contact_phone;
  territory_code = cmd.territory_code;
  parent_establishment_id = cmd.parent_establishment_id;
  designated_host_user_id = cmd.designated_host_user_id;
  geometry_validated_at = none;
  geometry_validated_by_user_id = none;
}

-- `CreateEstablishment.execute`
unfoldable pub create_establishment : CreateEstablishmentCommand → ℕ → Exec ℕ
create_establishment cmd eid = do add_establishment (new_establishment cmd eid); pure eid
