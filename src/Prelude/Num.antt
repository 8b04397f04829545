-- ===== src/Prelude/Num.antt =====
-- A JavaScript number. Every finite double is a whole multiple of 2^-1074, so its comparisons are
-- those of an integer; NaN and the infinities are kept apart.
use mathlib.Core.Bool.{Bool, true, false, ◌||◌}
use glitch_topstep.Prelude.Int.{ℤ, pos, ltb_ℤ, eqb_ℤ}

pub data Number : Type 0 where
  nan neg_infinity pos_infinity : Number
  finite : ℤ → Number

-- `Number.isFinite`
abbrev pub is_finite : Number → Bool
is_finite (finite _) = true
is_finite _ = false

-- `a < b`
abbrev pub num_lt : Number → Number → Bool
num_lt (finite a) (finite b) = ltb_ℤ a b
num_lt (finite a) pos_infinity = true
num_lt neg_infinity (finite b) = true
num_lt neg_infinity pos_infinity = true
num_lt _ _ = false

-- `a === b`
abbrev pub num_eq : Number → Number → Bool
num_eq (finite a) (finite b) = eqb_ℤ a b
num_eq neg_infinity neg_infinity = true
num_eq pos_infinity pos_infinity = true
num_eq _ _ = false

-- `a <= b`
abbrev pub num_le : Number → Number → Bool
num_le a b = num_lt a b || num_eq a b

-- `a > 0`
abbrev pub is_positive : Number → Bool
is_positive a = num_lt (finite (pos 0)) a
