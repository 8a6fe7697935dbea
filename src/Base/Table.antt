-- ===== src/Base/Table.antt =====
-- A table of the database: its rows in the order of insertion, found by a numeric key.
pub mod Keys
pub mod Texts
use Prim.Native.Nat.{ℕ}
use mathlib.Core.Path.{◌≡◌, refl}
use mathlib.Core.Bool.{Bool}
use mathlib.Core.Option.{Option, none, some}
use mathlib.Core.List.{List, [], ◌∷◌, ◌++◌}
use native.Mathlib.Omega.{arith}
use sigis_backend.Base.Tests.{◌==◌, if◌then◌else◌, is_some}

module _ {V : Type 0} where
  -- The first row that passes a test: `select(...).where(p)` then `scalars().first()`.
  unfoldable pub first : (V → Bool) → List V → Option V
  first p [] = none
  first p (x ∷ xs) = if p x then some x else first p xs

  -- `session.get(Model, k)`, with the primary key `key`.
  unfoldable pub get : (V → ℕ) → ℕ → List V → Option V
  get key k [] = none
  get key k (x ∷ xs) = if key x == k then some x else get key k xs

  -- The row with the key of `v` becomes `v`; with no such row, `v` is added.
  unfoldable pub put : (V → ℕ) → V → List V → List V
  put key v [] = v ∷ []
  put key v (x ∷ xs) = if key x == key v then v ∷ xs else x ∷ put key v xs

  pub get-put :
      (key : V → ℕ) (k : ℕ) (v : V) (t : List V)
      → get key k (put key v t) ≡ (if key v == k then some v else get key k t)
  unfolding get put
  get-put key k v [] = refl
  get-put key k v (x ∷ t) = ground (arith, get-put key k v t)

  -- A row that is found has the key that was asked for.
  pub key_of_get : (key : V → ℕ) (k : ℕ) (t : List V) {v : V} → get key k t ≡ some v → key v ≡ k
  unfolding get
  key_of_get key k [] {v} h = ground arith
  key_of_get key k (x ∷ t) {v} h = ground (arith, key_of_get key k t {v = v})

  -- So it is found by its own key.
  pub get_own :
      (key : V → ℕ) (k : ℕ) (t : List V) {v : V} → get key k t ≡ some v → get key (key v) t ≡ some v
  get_own key k t {v} h = rw (key_of_get key k t {v = v} h) h

  -- Two inserts never share a key: the constraint `UNIQUE` (or `PRIMARY KEY`) of a column.
  abbrev pub IsUnique : (V → ℕ) → List V → Type 0
  IsUnique key [] = Unit
  IsUnique key (x ∷ t) = (get key (key x) t ≡ none) × IsUnique key t

  pub put-IsUnique :
      (key : V → ℕ) (v : V) (t : List V) → IsUnique key t → IsUnique key (put key v t)
  unfolding put get
  put-IsUnique key v [] h = (refl, tt)
  put-IsUnique key v (x ∷ t) h = ground (arith, put-IsUnique key v t h.1, get-put key (key x) v t)

  pub get-append :
      (key : V → ℕ) (k : ℕ) (t u : List V)
      → get key k (t ++ u) ≡ (if is_some (get key k t) then get key k t else get key k u)
  unfolding get
  get-append key k [] u = refl
  get-append key k (x ∷ t) u = ground (arith, get-append key k t u)

  pub snoc-IsUnique :
      (key : V → ℕ) (v : V) (t : List V)
      → get key (key v) t ≡ none
      → IsUnique key t
      → IsUnique key (t ++ v ∷ [])
  unfolding get
  snoc-IsUnique key v [] f h = (refl, tt)
  snoc-IsUnique key v (x ∷ t) f h =
      ground (arith, snoc-IsUnique key v t, get-append key (key x) t (v ∷ []))

  -- A new key is put at the end.
  pub put-eq-snoc :
      (key : V → ℕ) (v : V) (t : List V) → get key (key v) t ≡ none → put key v t ≡ t ++ v ∷ []
  unfolding get put
  put-eq-snoc key v [] h = refl
  put-eq-snoc key v (x ∷ t) h = ground (arith, put-eq-snoc key v t)

  pub first-append :
      (p : V → Bool) (t u : List V)
      → first p (t ++ u) ≡ (if is_some (first p t) then first p t else first p u)
  unfolding first
  first-append p [] u = refl
  first-append p (x ∷ t) u = ground (arith, first-append p t u)
