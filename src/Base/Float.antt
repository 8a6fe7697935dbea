-- ===== src/Base/Float.antt =====
-- Python's `float`, by the bit pattern of a binary64 value. Its arithmetic, and that of the module
-- `math`, is the machine's: an argument of the definitions that use it.
use sigis_backend.Base.{ℕ, Bool}

abbrev pub Float : Type 0
Float = ℕ

pub record FloatOps : Type 0 where
  pub of_int : ℕ → Float
  pub le : Float → Float → Bool
  pub gt : Float → Float → Bool
  pub sub : Float → Float → Float
  pub add : Float → Float → Float
  pub mul : Float → Float → Float
  pub half : Float → Float
  pub square : Float → Float
  pub radians : Float → Float
  pub sin : Float → Float
  pub cos : Float → Float
  pub asin : Float → Float
  pub sqrt : Float → Float
  pub min : Float → Float → Float
