-- ===== src/Execution/Brackets.antt =====
-- src/execution/brackets.ts: the distances of a bracket in ticks. Prices are whole numbers of one
-- small unit. With a tick of less than 10^8 units the tolerances of the source (1e-8 and 1e-9 of a
-- tick) then change nothing, and are left out; so is the rounding of floating-point quotients.
pub mod Rounding
mod Examples
use glitch_topstep.Execution.Amendment.{Side, long, short}
use glitch_topstep.Prelude.{
  ◌>>=◌, ltb, leb, ◌==◌, if◌then◌else◌, ltb→lt, leb→le, ==_iff, Bool-cases, Option-cases, is_some,
  is_none, or_else, length, is_empty, length-append, some_of, some_inj, every, keep, find,
  length-keep-le, All, ℤ, pos, negsuc, pos_part, neg_part, sub_ℕ, ◌+ℤ◌, ◌-ℤ◌, ◌*ℤ◌, ◌≤ℤ◌, ◌<ℤ◌,
  ltb_ℤ, leb_ℤ, eqb_ℤ, max_ℤ, min_ℤ, +ℤ_parts, -ℤ_parts, eq_of_parts, int_laws, Number, nan,
  neg_infinity, pos_infinity, finite, is_finite, num_lt, num_eq, num_le, is_positive, ℕ, zero, suc,
  ◌+◌, ◌-◌, ◌*◌, ◌/◌, ◌%◌, ◌≤◌, ◌<◌, min, max, ◌≡◌, refl, sym, ap, ◌∙◌, ◌≢◌, ◌↔◌, ◌⊎◌, inl, inr,
  Bool, true, false, not, ◌&&◌, ◌||◌, Option, none, some, List, [], ◌∷◌, ◌++◌, map, arith,
  ℕ_discrete,
}

pub record BracketTicks : Type 0 where
  pub stop_ticks : ℕ
  pub target_ticks : ℕ

pub data BracketResult : Type 0 where
  computed : BracketTicks → BracketResult
  tick_size_invalid stop_not_on_loss_side target_not_on_profit_side : BracketResult
  bracket_distance_too_small : BracketResult

-- For prices that are not finite and for a tick that is not positive, no price is on it.
unfoldable pub is_tick_aligned : Number → Number → Bool
is_tick_aligned (finite price) (finite tick) =
    if leb_ℤ tick (pos 0) then false else (pos_part price + neg_part price) % pos_part tick == 0
is_tick_aligned _ _ = false

pub stop_distance : Side → ℤ → ℤ → ℤ
stop_distance long reference stop = reference -ℤ stop
stop_distance short reference stop = stop -ℤ reference

pub target_distance : Side → ℤ → ℤ → ℤ
target_distance long reference target = target -ℤ reference
target_distance short reference target = reference -ℤ target

-- `Math.ceil(distance / tick)`
pub ceil_ticks : ℕ → ℕ → ℕ
ceil_ticks distance tick = (distance + (tick - 1)) / tick

-- `Math.floor(distance / tick)`
pub floor_ticks : ℕ → ℕ → ℕ
floor_ticks distance tick = distance / tick

pub check_ticks : ℕ → ℕ → BracketResult
check_ticks stop_ticks target_ticks =
    if ltb stop_ticks 1 || ltb target_ticks 1
    then bracket_distance_too_small
    else computed (record { stop_ticks = stop_ticks; target_ticks = target_ticks })

pub bracket_for : ℤ → ℤ → ℤ → BracketResult
unfolding check_ticks ceil_ticks floor_ticks
bracket_for stop target tick =
    if leb_ℤ tick (pos 0)
    then tick_size_invalid
    else if leb_ℤ stop (pos 0)
    then stop_not_on_loss_side
    else if leb_ℤ target (pos 0)
    then target_not_on_profit_side
    else check_ticks (ceil_ticks (pos_part stop) (pos_part tick))
        (floor_ticks (pos_part target) (pos_part tick))

unfoldable pub calculate_bracket_ticks : Side → ℤ → ℤ → ℤ → ℤ → BracketResult
unfolding bracket_for stop_distance target_distance
calculate_bracket_ticks side reference stop target tick =
    bracket_for (stop_distance side reference stop) (target_distance side reference target) tick

pub to_project_x_bracket_ticks : Side → BracketTicks → ℤ × ℤ
to_project_x_bracket_ticks long b = (pos 0 -ℤ pos b.stop_ticks, pos b.target_ticks)
to_project_x_bracket_ticks short b = (pos b.stop_ticks, pos 0 -ℤ pos b.target_ticks)
