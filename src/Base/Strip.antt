-- ===== src/Base/Strip.antt =====
-- `str.strip()`: the code points of white space are taken off both ends.
use mathlib.Core.List.{reverse}
use sigis_backend.Base.{ℕ, Bool, ◌||◌, ◌&&◌, [], ◌∷◌, Text, leb, ◌==◌, if◌then◌else◌}

-- `str.isspace()` of one code point.
unfoldable pub is_space : ℕ → Bool
is_space c =
    (leb 9 c && leb c 13)
    || (leb 28 c && leb c 32)
    || c == 0x85
    || c == 0xa0
    || c == 0x1680
    || (leb 0x2000 c && leb c 0x200a)
    || c == 0x2028
    || c == 0x2029
    || c == 0x202f
    || c == 0x205f
    || c == 0x3000

unfoldable pub lstrip : Text → Text
lstrip [] = []
lstrip (c ∷ s) = let rest = lstrip s in if is_space c then rest else c ∷ s

unfoldable pub strip : Text → Text
unfolding lstrip
strip s = reverse (lstrip (reverse (lstrip s)))
