-- ===== src/Base/Table/Keys.antt =====
-- A second unique column of a table, and the lookup by it.
use sigis_backend.Base.{
  ℕ, ◌≡◌, refl, false, Option, none, some, List, [], ◌∷◌, ◌==◌, is_some, select, arith,
}
use sigis_backend.Base.Table.{get, put, IsUnique}

module _ {V : Type 0} where
  -- Replacing a row by one with the same second key leaves the second keys of the table.
  pub get_other-put :
      (key other : V → ℕ) (k : ℕ) (v w : V) (t : List V)
      → get key (key v) t ≡ some w
      → other v ≡ other w
      → is_some (get other k (put key v t)) ≡ is_some (get other k t)
  unfolding get put
  get_other-put key other k v w [] h e = ground arith
  get_other-put key other k v w (x ∷ t) h e = ground (arith, get_other-put key other k v w t)

  none_of_is_some : (o : Option V) → is_some o ≡ false → o ≡ none
  none_of_is_some none h = refl
  none_of_is_some (some v) h = ground arith

  pub put-IsUnique_other :
      (key other : V → ℕ) (v w : V) (t : List V)
      → get key (key v) t ≡ some w
      → other v ≡ other w
      → IsUnique other t
      → IsUnique other (put key v t)
  unfolding get put
  put-IsUnique_other key other v w [] h e u = ground arith
  put-IsUnique_other key other v w (x ∷ t) h e u = ground (
    arith,
    put-IsUnique_other key other v w t,
    get_other-put key other (other x) v w t,
    none_of_is_some (get other (other x) (put key v t)),
    none_of_is_some (get other (other v) t),
  )

  pub select-nil_of_get :
      (key : V → ℕ) (k : ℕ) (t : List V) → get key k t ≡ none → select (λ v. key v == k) t ≡ []
  unfolding get
  select-nil_of_get key k [] h = refl
  select-nil_of_get key k (x ∷ t) h = ground (arith, select-nil_of_get key k t)

  -- A row found by one column is the row found by a unique other column.
  pub get_both :
      (key other : V → ℕ) (k : ℕ) (w : V) (t : List V)
      → IsUnique key t
      → get other k t ≡ some w
      → get key (key w) t ≡ some w
  unfolding get
  get_both key other k w [] u h = ground arith
  get_both key other k w (x ∷ t) u h = ground (arith, get_both key other k w t)
