-- ===== src/Base/Uuid.antt =====
-- `str(UUID)`: 32 hexadecimal digits in groups of 8, 4, 4, 4 and 12.
use Prim.Native.Nat.{◌/◌, ◌%◌}
use sigis_backend.Base.{ℕ, zero, suc, ◌+◌, [], ◌∷◌, ◌++◌, Text, ltb, if◌then◌else◌}

unfoldable pub hex_digit : ℕ → ℕ
hex_digit n = if ltb n 10 then n + 48 else n + 87

-- The last `k` hexadecimal digits of `n`, the first one first.
unfoldable pub hex_digits : ℕ → ℕ → Text
hex_digits zero n = []
hex_digits (suc k) n = hex_digits k (n / 16) ++ hex_digit (n % 16) ∷ []

unfoldable pub uuid_text : ℕ → Text
unfolding hex_digits hex_digit
uuid_text n =
    hex_digits 8 (n / 0x1000000000000000000000000)
    ++ b'-'
      ∷ (hex_digits 4 (n / 0x10000000000000000000)
          ++ b'-'
            ∷ (hex_digits 4 (n / 0x1000000000000000)
                ++ b'-' ∷ (hex_digits 4 (n / 0x1000000000000) ++ b'-' ∷ hex_digits 12 n)))
