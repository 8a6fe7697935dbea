-- ===== src/Store/Missions/Queries/Counts.antt =====
-- The counts of the summary agree with the list.
use sigis_backend.Base.{
  ℕ, zero, suc, ◌+◌, ◌*◌, ◌≤◌, ◌≡◌, refl, sym, ap, ◌∙◌, Bool, ◌&&◌, Option, none, some, List, [],
  ◌∷◌, ◌++◌, Text, length, select, take, drop, arith,
}
use sigis_backend.Domain.Mission.{Mission, MissionStatus}
use sigis_backend.Store.Tables.{Db}
use sigis_backend.Store.Missions.Queries.{
  MissionFilter, status_text, passes, has_status, missions_filtered, list_page, statuses, grouped,
  count_by_status, sum_counts, count_of, missions_summary,
}

select_and :
    (p q : Mission → Bool) (xs : List Mission)
    → select (λ m. p m && q m) xs ≡ select q (select p xs)
select_and p q [] = refl
select_and p q (m ∷ xs) = ground (arith, select_and p q xs)

select_true : (xs : List Mission) → select (has_status none) xs ≡ xs
select_true [] = refl
select_true (m ∷ xs) = ap (λ (ys : List Mission). m ∷ ys) (select_true xs)

abbrev number : MissionStatus → List Mission → ℕ
number s rows = length (select (has_status (some (status_text s))) rows)

abbrev total : List MissionStatus → List Mission → ℕ
total [] rows = 0
total (s ∷ ss) rows = number s rows + total ss rows

sum_grouped :
    (ss : List MissionStatus) (rows : List Mission) → sum_counts (grouped ss rows) ≡ total ss rows
sum_grouped [] rows = refl
sum_grouped (s ∷ ss) rows = ground (arith, sum_grouped ss rows)

-- Each row has exactly one status.
total_at :
    (t : MissionStatus) (m : Mission) (rows : List Mission)
    → m.status ≡ t
    → total statuses (m ∷ rows) ≡ suc (total statuses rows)
unfolding status_text
total_at MissionStatus.draft m rows e = rw e (omega arith)
total_at MissionStatus.planned m rows e = rw e (omega arith)
total_at MissionStatus.in_progress m rows e = rw e (omega arith)
total_at MissionStatus.completed m rows e = rw e (omega arith)
total_at MissionStatus.cancelled m rows e = rw e (omega arith)

total_lem : (rows : List Mission) → total statuses rows ≡ length rows
total_lem [] = refl
total_lem (m ∷ rows) = total_at m.status m rows refl ∙ ap suc (total_lem rows)

count_grouped :
    (s : MissionStatus) (rows : List Mission)
    → count_of (status_text s) (grouped statuses rows) ≡ number s rows
unfolding status_text
count_grouped MissionStatus.draft rows = ground arith
count_grouped MissionStatus.planned rows = ground arith
count_grouped MissionStatus.in_progress rows = ground arith
count_grouped MissionStatus.completed rows = ground arith
count_grouped MissionStatus.cancelled rows = ground arith

-- The first `k` pages, one after the other.
unfoldable pub pages :
    (ordered : List Mission → List Mission)
    → ℕ
    → MissionFilter
    → Option Text
    → Db
    → ℕ
    → List Mission
pages ordered limit f status db zero = []
pages ordered limit f status db (suc k) =
    pages ordered limit f status db k ++ (list_page ordered (k * limit) limit f status db).0

take-nil : {A : Type 0} (n : ℕ) → take {A = A} n [] ≡ []
take-nil zero = refl
take-nil (suc n) = refl

take-add : {A : Type 0} (a b : ℕ) (xs : List A) → take (a + b) xs ≡ take a xs ++ take b (drop a xs)
take-add zero b xs = let e : 0 + b ≡ b = omega arith in rw e refl
take-add (suc a) b [] = let e : suc a + b ≡ suc (a + b) = omega arith in rw (e, take-nil b) refl
take-add {A} (suc a) b (x ∷ xs) =
    let e : suc a + b ≡ suc (a + b) = omega arith in
    rw e (ap (λ (ys : List A). x ∷ ys) (take-add a b xs))

take-all : {A : Type 0} (n : ℕ) (xs : List A) → length xs ≤ n → take n xs ≡ xs
take-all zero [] h = refl
take-all zero (x ∷ xs) h = absurd (omega (arith, h))
take-all (suc n) [] h = refl
take-all {A} (suc n) (x ∷ xs) h = ap (λ (ys : List A). x ∷ ys) (take-all n xs (omega (arith, h)))

pages_lem :
    (ordered : List Mission → List Mission) (limit : ℕ) (f : MissionFilter) (status : Option Text)
    (db : Db) (k : ℕ)
    → pages ordered limit f status db k ≡ take (k * limit) (ordered (missions_filtered f status db))
unfolding pages list_page
pages_lem ordered limit f status db zero = let e : 0 * limit ≡ 0 = omega arith in rw e refl
pages_lem ordered limit f status db (suc k) =
    let e : suc k * limit ≡ k * limit + limit = ground arith in
    rw
      (
        e,
        take-add (k * limit) limit (ordered (missions_filtered f status db)),
        pages_lem ordered limit f status db k,
      )
      refl

-- The summary and the list agree, for the same filters: the total of the summary is the number
-- that the unfiltered list announces, and the count of a status is the number announced with this
-- status. And where the database orders the rows in the same way each time, without losing or
-- adding any, as many pages as it takes give all the ordered rows, each once.
pub summary_lem :
    (ordered : List Mission → List Mission) (offset limit k : ℕ) (f : MissionFilter)
    (s : MissionStatus) (status : Option Text) (db : Db)
    → length (ordered (missions_filtered f status db)) ≡ length (missions_filtered f status db)
    → (list_page ordered offset limit f status db).1 ≤ k * limit
    → let (all_missions, by_status) = missions_summary f db in
      (all_missions ≡ (list_page ordered offset limit f none db).1)
      × (count_of (status_text s) by_status
          ≡ (list_page ordered offset limit f (some (status_text s)) db).1)
      × (pages ordered limit f status db k ≡ ordered (missions_filtered f status db))
unfolding missions_summary count_by_status list_page missions_filtered
summary_lem ordered offset limit k f s status db same enough = (
  sum_grouped statuses (select (passes db f) db.missions)
      ∙ total_lem (select (passes db f) db.missions)
      ∙ ap length (
          sym (
            select_and (passes db f) (has_status none) db.missions
            ∙ select_true (select (passes db f) db.missions))),
  count_grouped s (select (passes db f) db.missions)
      ∙ ap length (sym (select_and (passes db f) (has_status (some (status_text s))) db.missions)),
  pages_lem ordered limit f status db k
      ∙ take-all (k * limit) (ordered (missions_filtered f status db))
          (omega (arith, same, enough)),
)
