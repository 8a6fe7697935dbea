-- ===== src/Store/Visits.antt =====
-- `SiteVisitRepositoryImpl` of infrastructure/persistence/sqlalchemy/repositories_impl.py, and
-- `apply_site_visit_to_row` of infrastructure/persistence/mappers.py.
pub mod Saved
use sigis_backend.Base.{ℕ, Option, none, some, List, [], ◌∷◌, ◌==◌, select}
use sigis_backend.Base.Table.{get, put}
use sigis_backend.Errors.{Result, Failure, ok, err}
use sigis_backend.Domain.Visit.{SiteVisit}
use sigis_backend.Store.Tables.{Db}
use sigis_backend.Store.Session.{Exec}

-- `scalar_one_or_none`
abbrev pub scalar_one_or_none : {A : Type 0} → List A → Result (Option A)
scalar_one_or_none [] = ok none
scalar_one_or_none (x ∷ []) = ok (some x)
scalar_one_or_none (x ∷ y ∷ r) = err Failure.multiple_results_found

unfoldable pub get_visit : ℕ → Db → Option SiteVisit
get_visit vid db = get (λ (v : SiteVisit). v.id) vid db.site_visits

unfoldable pub get_visit_by_mission : ℕ → Exec (Option SiteVisit)
get_visit_by_mission mid db =
    (scalar_one_or_none (select (λ (v : SiteVisit). v.mission_id == mid) db.site_visits), db)

-- The row keeps its id and its mission.
unfoldable pub apply_site_visit_to_row : SiteVisit → SiteVisit → SiteVisit
apply_site_visit_to_row visit row = record visit { id = row.id; mission_id = row.mission_id }

unfoldable pub row_to_write : SiteVisit → Option SiteVisit → SiteVisit
unfolding apply_site_visit_to_row
row_to_write visit none = visit
row_to_write visit (some row) = apply_site_visit_to_row visit row

-- `SiteVisitRepositoryImpl.save`
unfoldable pub save_visit : SiteVisit → Exec (Unit {0})
unfolding row_to_write
save_visit visit db = (
  ok tt,
  record db {
    site_visits =
        put (λ (v : SiteVisit). v.id) (row_to_write visit (get_visit visit.id db)) db.site_visits;
  },
)
