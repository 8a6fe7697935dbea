-- ===== src/Store/Missions/Queries.antt =====
-- The filtered queries of `MissionRepositoryImpl`
-- (infrastructure/persistence/sqlalchemy/repositories_impl.py), and the routes `list_missions` and
-- `missions_summary` of api/v1/missions.py over them.
pub mod Counts
use sigis_backend.Base.{
  ℕ, zero, suc, ◌+◌, Bool, true, false, ◌&&◌, ◌==◌, Option, none, some, List, [], ◌∷◌, Text, codes,
  text_eq, length, select, take, drop, if◌then◌else◌,
}
use sigis_backend.Base.Table.{get}
use sigis_backend.Time.{Datetime, dt_le}
use sigis_backend.Domain.Mission.{Mission, MissionStatus}
use sigis_backend.Domain.Establishment.{Establishment}
use sigis_backend.Store.Tables.{Db}

-- `status.value`
unfoldable pub status_text : MissionStatus → Text
status_text MissionStatus.draft = codes "draft"
status_text MissionStatus.planned = codes "planned"
status_text MissionStatus.in_progress = codes "in_progress"
status_text MissionStatus.completed = codes "completed"
status_text MissionStatus.cancelled = codes "cancelled"

-- The filters that the queries share.
pub record MissionFilter : Type 0 where
  pub inspector_id : Option ℕ
  pub establishment_id : Option ℕ
  pub territory_code : Option Text
  pub window_from : Option Datetime
  pub window_to : Option Datetime

abbrev is_number : Option ℕ → ℕ → Bool
is_number none n = true
is_number (some k) n = n == k

abbrev is_code : Option Text → Text → Bool
is_code none code = false
is_code (some c) code = text_eq c code

abbrev place_has : Option Establishment → Text → Bool
place_has none code = false
place_has (some e) code = is_code e.territory_code code

-- The join with the mission's establishment, which has one row at most.
abbrev in_territory : Db → Option Text → Mission → Bool
in_territory db none m = true
in_territory db (some code) m =
    place_has (get (λ (e : Establishment). e.id) m.establishment_id db.establishments) code

abbrev ends_after : Option Datetime → Mission → Bool
ends_after none m = true
ends_after (some d) m = dt_le d m.window_end

abbrev starts_before : Option Datetime → Mission → Bool
starts_before none m = true
starts_before (some d) m = dt_le m.window_start d

unfoldable pub passes : Db → MissionFilter → Mission → Bool
passes db f m =
    in_territory db f.territory_code m
    && is_number f.inspector_id m.inspector_id
    && is_number f.establishment_id m.establishment_id
    && ends_after f.window_from m
    && starts_before f.window_to m

abbrev pub has_status : Option Text → Mission → Bool
has_status none m = true
has_status (some s) m = text_eq (status_text m.status) s

-- `_mission_select_filtered`
unfoldable pub missions_filtered : MissionFilter → Option Text → Db → List Mission
missions_filtered f status db = select (λ m. passes db f m && has_status status m) db.missions

-- `list_page`: the rows of a page and the number of all. `ORDER BY window_start DESC` is the
-- database's, which orders rows with the same start as it likes: an argument.
unfoldable pub list_page :
    (List Mission → List Mission) → ℕ → ℕ → MissionFilter → Option Text → Db → List Mission × ℕ
unfolding missions_filtered
list_page ordered offset limit f status db =
    let rows = missions_filtered f status db in
    (take limit (drop offset (ordered rows)), length rows)

-- `GROUP BY status`: a status without a row has no entry. The order of the entries is not looked
-- at.
abbrev pub statuses : List MissionStatus
statuses =
    MissionStatus.draft ∷ MissionStatus.planned ∷ MissionStatus.in_progress
    ∷ MissionStatus.completed ∷ MissionStatus.cancelled ∷ []

abbrev pub grouped : List MissionStatus → List Mission → List (Text × ℕ)
grouped [] rows = []
grouped (s ∷ ss) rows =
    let rest = grouped ss rows in
    let n = length (select (has_status (some (status_text s))) rows) in
    if n == 0 then rest else (status_text s, n) ∷ rest

-- `count_by_status`
unfoldable pub count_by_status : MissionFilter → Db → List (Text × ℕ)
count_by_status f db = grouped statuses (select (passes db f) db.missions)

-- `sum(by_status.values())`
abbrev pub sum_counts : List (Text × ℕ) → ℕ
sum_counts [] = 0
sum_counts ((s, n) ∷ rest) = n + sum_counts rest

-- `by_status.get(s, 0)`
abbrev pub count_of : Text → List (Text × ℕ) → ℕ
count_of s [] = 0
count_of s ((t, n) ∷ rest) = let other = count_of s rest in if text_eq t s then n else other

-- `missions_summary`
unfoldable pub missions_summary : MissionFilter → Db → ℕ × List (Text × ℕ)
unfolding count_by_status
missions_summary f db = let by_status = count_by_status f db in (sum_counts by_status, by_status)
