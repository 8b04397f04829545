-- ===== src/Execution/Brackets/Rounding.antt =====
-- A bracket is rounded against the account: the stop outwards, the target inwards.
use native.Mathlib.Nat.{div-mul-le_self, lt-div-mul-add}
use glitch_topstep.Execution.Amendment.{Side}
use glitch_topstep.Execution.Brackets.{
  BracketTicks, BracketResult, computed, stop_distance, target_distance, ceil_ticks, floor_ticks,
  check_ticks, bracket_for, calculate_bracket_ticks,
}
use glitch_topstep.Prelude.{
  ℤ, pos, pos_part, neg_part, ◌+ℤ◌, ◌≤ℤ◌, ◌<ℤ◌, int_laws, ℕ, ◌+◌, ◌-◌, ◌*◌, ◌≤◌, ◌<◌, ◌≡◌, sym, ap,
  arith,
}

ceil_ticks-bounds : (d t : ℕ) → 0 < t → (d ≤ ceil_ticks d t * t) × (ceil_ticks d t * t < d + t)
unfolding ceil_ticks
ceil_ticks-bounds d t h = (
  omega (arith, lt-div-mul-add {a = d + (t - 1)} h),
  omega (arith, div-mul-le_self (d + (t - 1)) t),
)

floor_ticks-bounds : (d t : ℕ) → 0 < t → (floor_ticks d t * t ≤ d) × (d < floor_ticks d t * t + t)
unfolding floor_ticks
floor_ticks-bounds d t h = (div-mul-le_self d t, lt-div-mul-add {a = d} h)

abbrev ticks_of : BracketResult → BracketTicks
ticks_of (computed b) = b
ticks_of _ = record { stop_ticks = 0; target_ticks = 0 }

-- What was checked, and what was computed.
check_ticks-computed :
    (s t : ℕ) (b : BracketTicks)
    → check_ticks s t ≡ computed b
    → (s ≡ b.stop_ticks) × (t ≡ b.target_ticks) × (1 ≤ s) × (1 ≤ t)
unfolding check_ticks
check_ticks-computed s t b h = ground (arith, ap ticks_of h)

bracket_for-computed :
    (stop target tick : ℤ) (b : BracketTicks)
    → bracket_for stop target tick ≡ computed b
    → (pos 0 <ℤ tick)
      × (pos 0 <ℤ stop)
      × (pos 0 <ℤ target)
      × (check_ticks
            (ceil_ticks (pos_part stop) (pos_part tick))
            (floor_ticks (pos_part target) (pos_part tick))
          ≡ computed b)
unfolding bracket_for
bracket_for-computed stop target tick b h = ground arith

neg_part-positive : (z : ℤ) → pos 0 <ℤ z → neg_part z ≡ 0
neg_part-positive z h = ground arith

-- A bracket is computed only for a positive tick, with the stop on the side of the loss and the
-- target on that of the profit. Both distances are at least one tick. The stop is never nearer than
-- asked for, so that its risk is not understated, and the target never farther; each is less than
-- one tick off.
pub calculate_bracket_ticks-bounds :
    (side : Side) (reference stop target tick : ℤ) (b : BracketTicks)
    → calculate_bracket_ticks side reference stop target tick ≡ computed b
    → (stop_distance side reference stop ≤ℤ pos (b.stop_ticks * pos_part tick))
      × (pos (b.stop_ticks * pos_part tick) <ℤ stop_distance side reference stop +ℤ tick)
      × (pos (b.target_ticks * pos_part tick) ≤ℤ target_distance side reference target)
      × (target_distance side reference target <ℤ pos (b.target_ticks * pos_part tick) +ℤ tick)
      × (1 ≤ b.stop_ticks)
      × (1 ≤ b.target_ticks)
unfolding calculate_bracket_ticks
calculate_bracket_ticks-bounds side reference stop target tick b h =
    let sd = stop_distance side reference stop in
    let td = target_distance side reference target in
    let (positive, loss, profit, checked) = bracket_for-computed sd td tick b h in
    let (es, et, one_s, one_t) =
      check_ticks-computed (ceil_ticks (pos_part sd) (pos_part tick))
        (floor_ticks (pos_part td) (pos_part tick)) b checked in
    let up = ceil_ticks-bounds (pos_part sd) (pos_part tick) (omega int_laws) in
    let down = floor_ticks-bounds (pos_part td) (pos_part tick) (omega int_laws) in
    let tick_sign = neg_part-positive tick positive in
    let stop_sign = neg_part-positive sd loss in
    let target_sign = neg_part-positive td profit in
    rw (sym es, sym et)
      (
        omega (int_laws, up.0, tick_sign, stop_sign, target_sign),
        omega (int_laws, up.1, tick_sign, stop_sign, target_sign),
        omega (int_laws, down.0, tick_sign, stop_sign, target_sign),
        omega (int_laws, down.1, tick_sign, stop_sign, target_sign),
        one_s,
        one_t,
      )
