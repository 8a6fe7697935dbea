-- ===== src/Store/Visits/Saved.antt =====
-- What the visit repository gives back after a visit is saved.
use sigis_backend.Base.{
  ℕ, ◌≡◌, refl, sym, none, some, List, [], ◌∷◌, inl, inr, ◌==◌, select, Option-cases, arith,
  if◌then◌else◌,
}
use mathlib.Core.Path.{subst}
use sigis_backend.Base.Table.{
  get, get-put, key_of_get, IsUnique, put-IsUnique, put-eq-snoc, snoc-IsUnique,
}
use sigis_backend.Base.Table.Keys.{put-IsUnique_other, select-nil_of_get}
use sigis_backend.Errors.{ok}
use sigis_backend.Domain.Visit.{SiteVisit}
use sigis_backend.Store.Tables.{Db}
use sigis_backend.Store.Visits.{
  scalar_one_or_none, get_visit, get_visit_by_mission, row_to_write, save_visit,
}

abbrev pub visit_id : SiteVisit → ℕ
visit_id v = v.id

abbrev pub visit_mission : SiteVisit → ℕ
visit_mission v = v.mission_id

-- Over a unique column at most one row is selected, the one that `get` finds.
pub one_or_none :
    {V : Type 0} (key : V → ℕ) (k : ℕ) (t : List V)
    → IsUnique key t
    → scalar_one_or_none (select (λ v. key v == k) t) ≡ ok (get key k t)
unfolding get
one_or_none key k [] u = refl
one_or_none key k (x ∷ t) u = ground (arith, one_or_none key k t, select-nil_of_get key k t)

-- The row that is written has the id of the visit.
pub id-row_to_write : (v : SiteVisit) (db : Db) → (row_to_write v (get_visit v.id db)).id ≡ v.id
unfolding row_to_write get_visit
id-row_to_write v db = elim (Option-cases (get_visit v.id db)) [
  | inl fresh ↦ ground arith
  | inr (row, e) ↦ ground (arith, key_of_get visit_id v.id db.site_visits e)
]

pub get_visit-save_visit :
    (v : SiteVisit) (j : ℕ) (db : Db)
    → get_visit j (save_visit v db).1
      ≡ (if v.id == j then some (row_to_write v (get_visit v.id db)) else get_visit j db)
unfolding get_visit save_visit
get_visit-save_visit v j db = ground (
  arith,
  get-put visit_id j (row_to_write v (get_visit v.id db)) db.site_visits,
  id-row_to_write v db,
)

-- The unique columns of the table `site_visits`.
pub record IsKeyed (db : Db) : Type 0 where
  pub ids : IsUnique visit_id db.site_visits
  pub missions : IsUnique visit_mission db.site_visits

-- Saving a visit keeps both columns unique, if a new visit is the first one of its mission.
pub save_visit-IsKeyed :
    (v : SiteVisit) (db : Db)
    → IsKeyed db
    → (get_visit v.id db ≡ none → get visit_mission v.mission_id db.site_visits ≡ none)
    → IsKeyed (save_visit v db).1
unfolding save_visit get_visit row_to_write
save_visit-IsKeyed v db k first_one = elim (Option-cases (get_visit v.id db)) [
  | inl fresh ↦ record {
    ids = put-IsUnique visit_id (row_to_write v (get_visit v.id db)) db.site_visits k.ids;
    missions =
        rw (fresh, put-eq-snoc visit_id v db.site_visits fresh)
          (snoc-IsUnique visit_mission v db.site_visits (first_one fresh) k.missions);
  }
  | inr (row, e) ↦ record {
    ids = put-IsUnique visit_id (row_to_write v (get_visit v.id db)) db.site_visits k.ids;
    missions = rw e (
        put-IsUnique_other visit_id visit_mission (row_to_write v (some row)) row db.site_visits
          (subst (λ i. get visit_id i db.site_visits ≡ some row)
            (sym (key_of_get visit_id v.id db.site_visits e)) e)
          refl k.missions);
  }
]

-- Under the constraints, the visit of a mission is found by its mission column.
pub get_visit_by_mission_lem :
    (mid : ℕ) (db : Db)
    → IsKeyed db
    → get_visit_by_mission mid db ≡ (ok (get visit_mission mid db.site_visits), db)
unfolding get_visit_by_mission
get_visit_by_mission_lem mid db k = rw (one_or_none visit_mission mid db.site_visits k.missions)
