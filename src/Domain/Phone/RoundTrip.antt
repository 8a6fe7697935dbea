-- ===== src/Domain/Phone/RoundTrip.antt =====
-- A phone number that has been accepted is accepted again as it is stored.
use mathlib.Core.List.{reverse, reverse-cons, reverse-reverse}
use sigis_backend.Base.{
  ℕ, ◌≡◌, ◌≢◌, refl, Bool, true, false, ◌||◌, ◌&&◌, not, [], ◌∷◌, ◌++◌, Text, codes, select, length,
  ltb, leb, arith,
}
use sigis_backend.Base.Strip.{lstrip, strip}
use sigis_backend.Errors.{Result, ok, err}
use sigis_backend.Domain.Phone.{
  Digits, all, starts_with, is_separator, is_digits, normalize, is_mobile_block, is_fixed_block,
  checked, phone_number, Operator, operator,
}

-- What the program relies on: a decimal digit is a digit, a digit is no separator, and the ASCII
-- digits are the ten figures.
pub record IsUnicode (d : Digits) : Type 0 where
  pub decimal : (c : ℕ) → d.is_decimal c ≡ true → d.is_digit c ≡ true
  pub plain : (c : ℕ) → d.is_digit c ≡ true → is_separator c ≡ false
  pub ascii : (c : ℕ) → ltb c 128 ≡ true → d.is_decimal c ≡ (leb 48 c && leb c 57)

abbrev no_separator : Text → Bool
no_separator s = all (λ c. not (is_separator c)) s

all-append : (p : ℕ → Bool) (s t : Text) → all p (s ++ t) ≡ (all p s && all p t)
all-append p [] t = refl
all-append p (c ∷ s) t = ground (arith, all-append p s t)

all-reverse : (p : ℕ → Bool) (s : Text) → all p (reverse s) ≡ all p s
all-reverse p [] = refl
all-reverse p (c ∷ s) =
    rw (reverse-cons c s, all-append p (reverse s) (c ∷ []), all-reverse p s) (ground arith)

lstrip_plain : (s : Text) → no_separator s ≡ true → lstrip s ≡ s
unfolding lstrip is_separator
lstrip_plain [] h = refl
lstrip_plain (c ∷ s) h = ground (arith, h)

strip_plain : (s : Text) → no_separator s ≡ true → strip s ≡ s
unfolding strip
strip_plain s h =
    rw
      (
        lstrip_plain s h,
        lstrip_plain (reverse s) (rw (all-reverse (λ c. not (is_separator c)) s) h),
      )
      (reverse-reverse s)

select_plain : (s : Text) → no_separator s ≡ true → select (λ c. not (is_separator c)) s ≡ s
select_plain [] h = refl
select_plain (c ∷ s) h = ground (arith, h, select_plain s)

module _ (d : Digits) (u : IsUnicode d) where
  digits_plain : (s : Text) → all d.is_digit s ≡ true → no_separator s ≡ true
  digits_plain [] h = refl
  digits_plain (c ∷ s) h = ground (arith, h, u.plain c, digits_plain s)

  is_digits-all : (s : Text) → is_digits d s ≡ true → all d.is_digit s ≡ true
  is_digits-all [] h = refl
  is_digits-all (c ∷ s) h = h

  prefixed_plain : (s : Text) → all d.is_digit s ≡ true → no_separator (codes "+237" ++ s) ≡ true
  unfolding is_separator
  prefixed_plain s h = ground (arith, digits_plain s h)

  normalize_again :
      (s : Text) → is_digits d s ≡ true → length s ≡ 9 → normalize d (codes "+237" ++ s) ≡ ok s
  unfolding normalize
  normalize_again s h n =
      let a = is_digits-all s h in
      rw (
        strip_plain (codes "+237" ++ s) (prefixed_plain s a),
        select_plain s (digits_plain s a),
        h,
        n,
      )

  -- What `normalize` gives.
  normalized : (raw s : Text) → normalize d raw ≡ ok s → (is_digits d s ≡ true) × (length s ≡ 9)
  unfolding normalize
  normalized raw s h = ground (arith, h)

  checked_ok :
      (r : Result Text) (e : Text)
      → checked d r ≡ ok e
      → (s : Text) × (r ≡ ok s)
        × ((is_mobile_block d s || is_fixed_block d s) ≡ true)
        × (e ≡ codes "+237" ++ s)
  checked_ok (err x) e h = absurd (ground (arith, h))
  checked_ok (ok s) e h = (s, refl, ground (arith, h), ground (arith, h))

  known_operator :
      (s : Text)
      → all (λ c. ltb c 128) s ≡ true
      → length s ≡ 9
      → (is_mobile_block d s || is_fixed_block d s) ≡ true
      → operator (codes "+237" ++ s) ≢ Operator.inconnu
  unfolding operator is_mobile_block is_fixed_block
  known_operator [] a n h = absurd (ground (arith, n))
  known_operator (x ∷ []) a n h = absurd (ground (arith, n))
  known_operator (x ∷ y ∷ []) a n h = absurd (ground (arith, n))
  known_operator (x ∷ y ∷ z ∷ s) a n h = ground (arith, a, h, u.ascii z)

  -- A number that is accepted is stored as `+237` and 9 characters, and what is stored is accepted
  -- again and stored as it is.
  pub phone_number_again :
      (raw e : Text)
      → phone_number d raw ≡ ok e
      → (phone_number d e ≡ ok e) × (length e ≡ 13) × (starts_with (codes "+237") e ≡ true)
  unfolding phone_number
  phone_number_again raw e h =
      let (s, from, block, it_is) = checked_ok (normalize d raw) e h in
      let (digits, nine) = normalized raw s from in
      rw (it_is, normalize_again s digits nine) (ground (arith, block), omega (arith, nine), refl)

  -- The operator of an accepted number that is stored in ASCII is known.
  pub operator-ne-inconnu :
      (raw e : Text)
      → phone_number d raw ≡ ok e
      → all (λ c. ltb c 128) e ≡ true
      → operator e ≢ Operator.inconnu
  unfolding phone_number
  operator-ne-inconnu raw e h a =
      let (s, from, block, it_is) = checked_ok (normalize d raw) e h in
      let (digits, nine) = normalized raw s from in
      rw it_is (known_operator s (ground (arith, rw it_is at a)) nine block)
