-- ===== src/Prelude/Float.antt =====
-- Python floats as the program compares them: NaN, or a multiple of the unit 10^-6.
use Prim.Native.Nat.{ℕ}
use mathlib.Core.Bool.{Bool, false}
use investment_intelligence.Prelude.Tests.{◌==◌}
use investment_intelligence.Prelude.Int.{ℤ, pos_part, neg_part, ltb_ℤ, leb_ℤ}
use Prim.Native.Nat.{◌+◌}

pub data Float : Type 0 where
  nan : Float
  real : ℤ → Float

-- The number of units in 1.0.
abbrev pub one : ℕ
one = 1_000_000

-- Every comparison with NaN is False.
abbrev pub float_lt : Float → Float → Bool
float_lt (real a) (real b) = ltb_ℤ a b
float_lt _ _ = false

abbrev pub float_le : Float → Float → Bool
float_le (real a) (real b) = leb_ℤ a b
float_le _ _ = false

abbrev pub float_eq : Float → Float → Bool
float_eq (real a) (real b) = pos_part a + neg_part b == pos_part b + neg_part a
float_eq _ _ = false
