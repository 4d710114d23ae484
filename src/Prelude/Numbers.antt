-- ===== src/Prelude/Numbers.antt =====
-- Go's float64, of which the program only tests and copies values. A finite value is an integer
-- multiple of 2 ^ -1074, and `finite n` is that of n.
use mathlib.Core.Bool.{Bool, true, false}
use claude_code_kiro_models.Prelude.Int.{ℤ, pos, negsuc}

pub data Float64 : Type 0 where
  nan infinity minus_infinity : Float64
  finite : ℤ → Float64

-- `!math.IsNaN(x) && !math.IsInf(x, 0) && x >= 0`
unfoldable pub is_usable : Float64 → Bool
is_usable nan = false
is_usable infinity = false
is_usable minus_infinity = false
is_usable (finite (pos n)) = true
is_usable (finite (negsuc n)) = false
