-- ===== src/Base/Table/Texts.antt =====
-- A unique column of texts, in a table whose rows are found by a numeric key.
use sigis_backend.Base.{
  ℕ, ◌≡◌, refl, Bool, false, ◌&&◌, not, none, some, List, [], ◌∷◌, ◌++◌, Text, text_eq, text_eq_iff,
  ◌==◌, ==_iff, arith,
}
use sigis_backend.Base.Table.{get, put, first, first-append, IsUnique}

text_eq_comm : (s t : Text) → text_eq s t ≡ text_eq t s
text_eq_comm s t = ground (arith, text_eq_iff s t, text_eq_iff t s)

module _ {V : Type 0} where
  abbrev pub has_text : (V → Text) → Text → V → Bool
  has_text col c v = text_eq (col v) c

  -- No two rows have the same text.
  abbrev pub IsDistinct : (V → Text) → List V → Type 0
  IsDistinct col [] = Unit
  IsDistinct col (x ∷ t) = (first (has_text col (col x)) t ≡ none) × IsDistinct col t

  -- A row of another key with the text.
  abbrev pub is_rival : (V → ℕ) → (V → Text) → V → V → Bool
  is_rival key col v x = has_text col (col v) x && not (key x == key v)

  pub snoc-IsDistinct :
      (col : V → Text) (v : V) (t : List V)
      → first (has_text col (col v)) t ≡ none
      → IsDistinct col t
      → IsDistinct col (t ++ v ∷ [])
  unfolding first
  snoc-IsDistinct col v [] f d = (refl, tt)
  snoc-IsDistinct col v (x ∷ t) f d = ground (
    arith,
    snoc-IsDistinct col v t,
    first-append (has_text col (col x)) t (v ∷ []),
    text_eq_comm (col x) (col v),
  )

  none_with :
      (key : V → ℕ) (col : V → Text) (v : V) (t : List V)
      → get key (key v) t ≡ none
      → first (is_rival key col v) t ≡ none
      → first (has_text col (col v)) t ≡ none
  unfolding first get
  none_with key col v [] g f = refl
  none_with key col v (x ∷ t) g f = ground (arith, none_with key col v t)

  none-put :
      (key : V → ℕ) (col : V → Text) (c : Text) (v : V) (t : List V)
      → first (has_text col c) t ≡ none
      → text_eq (col v) c ≡ false
      → first (has_text col c) (put key v t) ≡ none
  unfolding first put
  none-put key col c v [] f e = ground arith
  none-put key col c v (x ∷ t) f e = ground (arith, none-put key col c v t)

  -- A row may be replaced by one whose text no other row has.
  pub put-IsDistinct :
      (key : V → ℕ) (col : V → Text) (v : V) (t : List V)
      → IsUnique key t
      → first (is_rival key col v) t ≡ none
      → IsDistinct col t
      → IsDistinct col (put key v t)
  unfolding first put
  put-IsDistinct key col v [] u f d = (refl, tt)
  put-IsDistinct key col v (x ∷ t) u f d = ground (
    arith,
    put-IsDistinct key col v t,
    none_with key col v t,
    none-put key col (col x) v t,
    text_eq_comm (col x) (col v),
    ==_iff (key x) (key v),
  )

  weaker :
      (key : V → ℕ) (col : V → Text) (v : V) (t : List V)
      → first (has_text col (col v)) t ≡ none
      → first (is_rival key col v) t ≡ none
  unfolding first
  weaker key col v [] f = refl
  weaker key col v (x ∷ t) f = ground (arith, weaker key col v t)

  differs :
      (key : V → ℕ) (col : V → Text) (k : ℕ) (c : Text) (w : V) (t : List V)
      → get key k t ≡ some w
      → first (has_text col c) t ≡ none
      → text_eq (col w) c ≡ false
  unfolding first get
  differs key col k c w [] g f = absurd (ground (arith, g))
  differs key col k c w (x ∷ t) g f = ground (arith, differs key col k c w t)

  -- A row that is replaced by one with the same text has no rival.
  pub same_text :
      (key : V → ℕ) (col : V → Text) (v w : V) (t : List V)
      → get key (key v) t ≡ some w
      → col v ≡ col w
      → IsDistinct col t
      → first (is_rival key col v) t ≡ none
  unfolding first get
  same_text key col v w [] g e d = refl
  same_text key col v w (x ∷ t) g e d = ground (
    arith,
    same_text key col v w t,
    weaker key col v t,
    differs key col (key v) (col x) w t,
    text_eq_comm (col x) (col w),
  )

  -- The row that replaces one with the same text is found by it.
  pub first-put :
      (key : V → ℕ) (col : V → Text) (v w : V) (t : List V)
      → get key (key v) t ≡ some w
      → col v ≡ col w
      → IsDistinct col t
      → first (has_text col (col v)) (put key v t) ≡ some v
  unfolding first get put
  first-put key col v w [] g e d = absurd (ground (arith, g))
  first-put key col v w (x ∷ t) g e d = ground (
    arith,
    first-put key col v w t,
    differs key col (key v) (col x) w t,
    text_eq_comm (col x) (col w),
    text_eq_iff (col v) (col v),
  )
