-- ===== src/Execution/Brackets/Examples.antt =====
-- A long entry whose reference is not on a tick of 25.
use glitch_topstep.Execution.Amendment.{long}
use glitch_topstep.Execution.Brackets.{
  BracketTicks, computed, stop_distance, target_distance, ceil_ticks, floor_ticks, check_ticks,
  bracket_for, calculate_bracket_ticks,
}
use glitch_topstep.Execution.Brackets.Rounding.{calculate_bracket_ticks-bounds}
use glitch_topstep.Prelude.{pos, ◌≤ℤ◌, ◌<ℤ◌, ◌-ℤ◌, ◌+ℤ◌, ◌≤◌, ◌≡◌, refl}

abbrev bracket : BracketTicks
bracket = record { stop_ticks = 5; target_ticks = 7 }

bracket_test :
    calculate_bracket_ticks long (pos 1010) (pos 900) (pos 1200) (pos 25) ≡ computed bracket
unfolding calculate_bracket_ticks stop_distance target_distance bracket_for check_ticks ceil_ticks
    floor_ticks ◌-ℤ◌
bracket_test = refl

calculate_bracket_ticks-bounds_example :
    (stop_distance long (pos 1010) (pos 900) ≤ℤ pos 125)
    × (pos 125 <ℤ stop_distance long (pos 1010) (pos 900) +ℤ pos 25)
    × (pos 175 ≤ℤ target_distance long (pos 1010) (pos 1200))
    × (target_distance long (pos 1010) (pos 1200) <ℤ pos 175 +ℤ pos 25)
    × (1 ≤ 5)
    × (1 ≤ 7)
calculate_bracket_ticks-bounds_example =
    calculate_bracket_ticks-bounds long (pos 1010) (pos 900) (pos 1200) (pos 25) bracket
      bracket_test
