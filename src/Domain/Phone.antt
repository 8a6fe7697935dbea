-- ===== src/Domain/Phone.antt =====
-- domain/identity/value_objects/phone_number.py: phone numbers of Cameroon.
pub mod RoundTrip
use sigis_backend.Base.{
  ℕ, zero, suc, Bool, true, false, ◌||◌, ◌&&◌, not, [], ◌∷◌, ◌++◌, Text, codes, select, drop,
  length, leb, ◌==◌, if◌then◌else◌,
}
use sigis_backend.Base.Strip.{is_space, strip}
use sigis_backend.Errors.{Result, ok, err, raised_as, Failure, ErrorClass}

-- The tables of Python's `unicodedata`, by code point: `str.isdigit` takes superscripts too, `\d`
-- of a regular expression only decimal digits.
pub record Digits : Type 0 where
  pub is_digit : ℕ → Bool
  pub is_decimal : ℕ → Bool

abbrev pub all : (ℕ → Bool) → Text → Bool
all p [] = true
all p (c ∷ s) = p c && all p s

-- `s.startswith(prefix)`
abbrev pub starts_with : Text → Text → Bool
starts_with [] s = true
starts_with (p ∷ ps) [] = false
starts_with (p ∷ ps) (c ∷ s) = (c == p) && starts_with ps s

-- `[\s\-.()\u00a0]`
unfoldable pub is_separator : ℕ → Bool
unfolding is_space
is_separator c = is_space c || c == 45 || c == 46 || c == 40 || c == 41 || c == 0xa0

-- `_COUNTRY_PREFIX_RE.sub("", s)`: one `+237` or `237`, at the start.
unfoldable pub drop_prefix : Text → Text
drop_prefix s =
    if starts_with (codes "+237") s
    then drop 4 s
    else if starts_with (codes "237") s
    then drop 3 s
    else s

abbrev pub invalid_number : Failure
invalid_number = raised_as ErrorClass.invalid_phone_number

module _ (d : Digits) where
  -- `s.isdigit()`, false on the empty text.
  abbrev pub is_digits : Text → Bool
  is_digits [] = false
  is_digits (c ∷ s) = d.is_digit c && all d.is_digit s

  -- `CameroonPhoneNumber._normalize`
  unfoldable pub normalize : Text → Result Text
  unfolding strip is_separator drop_prefix
  normalize raw =
      let cleaned = drop_prefix (select (λ c. not (is_separator c)) (strip raw)) in
      if is_digits cleaned
      then if length cleaned == 9 then ok cleaned else err invalid_number
      else err invalid_number

  -- `_MOBILE_RE.match`, on a text of 9 characters that are digits.
  unfoldable pub is_mobile_block : Text → Bool
  is_mobile_block [] = false
  is_mobile_block (a ∷ []) = false
  is_mobile_block (a ∷ b ∷ rest) =
      (a == 54)
      && (b == 53 || b == 54 || b == 55 || b == 57)
      && (length rest == 7)
      && all d.is_decimal rest

  -- `_FIXED_RE.match`, on the same.
  unfoldable pub is_fixed_block : Text → Bool
  is_fixed_block s =
      (starts_with (codes "222") s
        || starts_with (codes "233") s
        || starts_with (codes "242") s
        || starts_with (codes "243") s)
      && (length (drop 3 s) == 6)
      && all d.is_decimal (drop 3 s)

  abbrev pub checked : Result Text → Result Text
  checked (err e) = err e
  checked (ok digits) =
      if is_mobile_block digits || is_fixed_block digits
      then ok (codes "+237" ++ digits)
      else err invalid_number

  -- `CameroonPhoneNumber(raw).e164`
  unfoldable pub phone_number : Text → Result Text
  unfolding normalize is_mobile_block is_fixed_block
  phone_number raw = checked (normalize raw)

-- `e164[4:]`
unfoldable pub national : Text → Text
national e164 = drop 4 e164

unfoldable pub is_mobile : Text → Bool
unfolding national
is_mobile e164 = starts_with (codes "6") (national e164)

pub data Operator : Type 0 where
  nexttel mtn orange camtel_fixe camtel_cdma inconnu : Operator

-- `n[:3] in {...}` for two runs of three digits: `65` and then a digit of the range.
abbrev pub is_65 : ℕ → ℕ → Text → Bool
is_65 low high (a ∷ b ∷ c ∷ s) = (a == 54) && (b == 53) && leb low c && leb c high
is_65 low high _ = false

unfoldable pub operator : Text → Operator
unfolding national
operator e164 =
    let n = national e164 in
    if starts_with (codes "66") n
    then Operator.nexttel
    else if starts_with (codes "67") n || is_65 48 52 n
    then Operator.mtn
    else if starts_with (codes "69") n || is_65 53 57 n
    then Operator.orange
    else if starts_with (codes "222") n || starts_with (codes "233") n
    then Operator.camtel_fixe
    else if starts_with (codes "242") n || starts_with (codes "243") n
    then Operator.camtel_cdma
    else Operator.inconnu
