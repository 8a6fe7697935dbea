-- ===== src/Tests/Tables.antt =====
-- Runs of the tables of permissions, and of the detectors.
use sigis_backend.Base.{map, ◌≡◌, some, List, [], ◌∷◌}
use sigis_backend.Base.Float.{Float}
use sigis_backend.Base.Int.{ℤ, pos, negsuc}
use sigis_backend.Domain.Roles.{Role, permission_index, visit_host_confirm, mission_read}
use sigis_backend.Domain.Anomalies.{Location, Anomaly, AnomalyType, AnomalySeverity, AnomalyEntity}
use sigis_backend.Store.Roles.{has, set_permissions, RolePermission, get_permissions_for_role}
use sigis_backend.Store.Roles.Laws.{set_permissions_lem}
use sigis_backend.Tests.World.{at}

-- A host may read missions; one row has an obsolete text.
abbrev pub grants_table : List RolePermission
grants_table = record { role = 4; permission = 4 } ∷ record { role = 4; permission = 99 } ∷ []

abbrev minutes_up : ℤ → Float
minutes_up (pos n) = n
minutes_up (negsuc n) = 0

abbrev place : Location
place = record { lat = 4; lon = 11; time = at 10 }

abbrev clone : Anomaly
clone = record {
  id = 3;
  kind = AnomalyType.gps_clone;
  severity = AnomalySeverity.high;
  entity_type = AnomalyEntity.presence_proof;
  entity_id = 0;
  inspector_id = some 1;
  detected_at = at 11;
}

set_permissions_lem_example :
    has (permission_index mission_read) (
      get_permissions_for_role Role.host
        (set_permissions Role.host (visit_host_confirm ∷ []) grants_table))
    ≡ has (permission_index mission_read) (map permission_index (visit_host_confirm ∷ []))
set_permissions_lem_example =
    set_permissions_lem Role.host mission_read (visit_host_confirm ∷ []) grants_table
