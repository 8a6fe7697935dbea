-- ===== src/Tests/Queries.antt =====
-- Runs of the mission queries, of the patch of a mission, and of the seeding of permissions.
use sigis_backend.Base.{◌≡◌, ◌==◌, ◌||◌, refl, none, some, [], ◌∷◌, codes, if◌then◌else◌, arith}
use sigis_backend.Base.Table.{first, get}
use sigis_backend.Errors.{ok, err, raised_as, ErrorClass}
use sigis_backend.Domain.Mission.{Mission, MissionStatus}
use sigis_backend.Domain.Roles.{Role, mission_read, grants, default_permissions_for}
use sigis_backend.Store.{Db, transaction}
use sigis_backend.Store.Missions.{get_mission}
use sigis_backend.Store.Missions.Queries.{
  MissionFilter, status_text, passes, missions_filtered, list_page, count_of, missions_summary,
}
use sigis_backend.Store.Missions.Queries.Counts.{pages, summary_lem}
use sigis_backend.Store.Roles.{has_row, seed_defaults, remove_permission}
use sigis_backend.Store.Roles.Seeding.{seed_defaults_lem}
use sigis_backend.UseCases.Missions.{new_mission}
use sigis_backend.Api.Missions.{UpdateMissionBody, status_of, patched, patch_mission}
use sigis_backend.Api.Missions.Patch.{patch_mission_lem}
use sigis_backend.Tests.World.{at, empty, planning}
use sigis_backend.Tests.Tables.{grants_table}

abbrev mission : Mission
mission = new_mission planning 20 77

abbrev db : Db
db = record empty { missions = mission ∷ [] }

abbrev of_inspector : MissionFilter
of_inspector = record {
  inspector_id = some 1;
  establishment_id = none;
  territory_code = none;
  window_from = some (at 10);
  window_to = none;
}

summary_lem_example :
    let (all_missions, by_status) = missions_summary of_inspector db in
    (all_missions ≡ (list_page (λ rows. rows) 0 1 of_inspector none db).1)
    × (count_of (status_text MissionStatus.planned) by_status
        ≡ (list_page
            (λ rows. rows)
            0
            1
            of_inspector
            (some (status_text MissionStatus.planned))
            db).1)
    × (pages (λ rows. rows) 1 of_inspector none db 1 ≡ missions_filtered of_inspector none db)
unfolding list_page missions_filtered passes new_mission
summary_lem_example =
    summary_lem (λ rows. rows) 0 1 1 of_inspector MissionStatus.planned none db refl (ground arith)

abbrev body : UpdateMissionBody
body = record {
  window_start = none;
  window_end = some (at 300);
  status = some (status_text MissionStatus.completed);
  sms_code = none;
  designated_host_user_id = none;
  objective = some (codes "audit");
  plan_reference = none;
}

abbrev patched_mission : Mission
patched_mission = record mission {
  window_end = at 300;
  status = MissionStatus.completed;
  objective = some (codes "audit");
}

patch_mission_lem_example :
    let after = transaction (patch_mission 20 body) db in
    (after.0 ≡ ok patched_mission)
    × (get_mission 21 after.1 ≡ (if 20 == 21 then some patched_mission else get_mission 21 db))
    × (transaction (patch_mission 20 (record body { status = some (codes "done") })) db
        ≡ (err (raised_as ErrorClass.conflict), db))
unfolding get_mission get new_mission patched status_of status_text
patch_mission_lem_example =
    patch_mission_lem 20 21 body MissionStatus.completed (codes "done") mission db refl refl refl

seed_defaults_lem_example :
    (has_row Role.host mission_read (seed_defaults grants_table).1 ≡ (
      has_row Role.host mission_read grants_table
      || grants mission_read (default_permissions_for Role.host)))
    × (has_row Role.host mission_read
          (seed_defaults (remove_permission Role.host mission_read grants_table).1).1
        ≡ grants mission_read (default_permissions_for Role.host))
unfolding first
seed_defaults_lem_example = seed_defaults_lem Role.host mission_read grants_table (refl, (refl, tt))
