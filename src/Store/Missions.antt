-- ===== src/Store/Missions.antt =====
-- `EstablishmentRepositoryImpl.get_by_id` and `add`, and `MissionRepositoryImpl` of
-- infrastructure/persistence/sqlalchemy/repositories_impl.py.
pub mod Queries
use sigis_backend.Base.{ℕ, Option, none, some, [], ◌∷◌, ◌++◌, is_some, if◌then◌else◌}
use sigis_backend.Base.Table.{get, put}
use sigis_backend.Errors.{Failure, ok, err}
use sigis_backend.Domain.Mission.{Mission}
use sigis_backend.Domain.Establishment.{Establishment}
use sigis_backend.Store.Tables.{Db}
use sigis_backend.Store.Session.{Exec}

unfoldable pub get_establishment : ℕ → Db → Option Establishment
get_establishment eid db = get (λ (e : Establishment). e.id) eid db.establishments

unfoldable pub add_establishment : Establishment → Exec (Unit {0})
add_establishment est db = (ok tt, record db { establishments = db.establishments ++ est ∷ [] })

-- `MissionRepositoryImpl.get_by_id`
unfoldable pub get_mission : ℕ → Db → Option Mission
get_mission mid db = get (λ (m : Mission). m.id) mid db.missions

-- The new columns of a mission's row. The stored `host_token` is kept where the object has none.
abbrev pub merge_token : Option ℕ → Option ℕ → Option ℕ
merge_token none old = old
merge_token (some t) old = some t

unfoldable pub write_mission : Mission → Option Mission → Exec (Unit {0})
write_mission mission none db =
    if is_some mission.host_token
    then (ok tt, record db { missions = put (λ (m : Mission). m.id) mission db.missions })
    else (err Failure.value_error, db)
write_mission mission (some row) db = (
  ok tt,
  record db {
    missions =
        put (λ (m : Mission). m.id)
          (record mission { host_token = merge_token mission.host_token row.host_token })
          db.missions;
  },
)

-- `MissionRepositoryImpl.save`, which `update` calls.
unfoldable pub save_mission : Mission → Exec (Unit {0})
unfolding write_mission
save_mission mission db = write_mission mission (get_mission mission.id db) db
