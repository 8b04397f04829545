-- ===== src/Risk/Mll.antt =====
-- src/risk/mll.ts: the maximum loss limit of a Topstep account. Amounts are whole cents (of which
-- doubles hold all that occur exactly), finite by type but for the operator's floor.
mod Floor
mod Examples
use glitch_topstep.Prelude.{
  ltb, leb, ◌==◌, if◌then◌else◌, ltb→lt, leb→le, ==_iff, Bool-cases, Option-cases, is_some, is_none,
  or_else, length, is_empty, length-append, some_of, some_inj, every, keep, find, length-keep-le,
  All, ℤ, pos, negsuc, pos_part, neg_part, sub_ℕ, ◌+ℤ◌, ◌-ℤ◌, ◌*ℤ◌, ◌≤ℤ◌, ◌<ℤ◌, ltb_ℤ, leb_ℤ, eqb_ℤ,
  max_ℤ, min_ℤ, +ℤ_parts, -ℤ_parts, eq_of_parts, int_laws, Number, nan, neg_infinity, pos_infinity,
  finite, is_finite, num_lt, num_eq, num_le, is_positive, ℕ, zero, suc, ◌+◌, ◌-◌, ◌*◌, ◌/◌, ◌≤◌,
  ◌<◌, min, max, ◌≡◌, refl, sym, ap, ◌∙◌, ◌≢◌, ◌↔◌, ◌⊎◌, inl, inr, Bool, true, false, not, ◌&&◌,
  ◌||◌, Option, none, some, List, [], ◌∷◌, ◌++◌, map, arith, ℕ_discrete,
}

pub data LossModel : Type 0 where
  trading_combine_eod express_funded_eod operator_provided_floor : LossModel

pub record Policy : Type 0 where
  pub loss_model : LossModel
  pub starting_balance : ℤ
  pub initial_maximum_loss : ℤ
  pub highest_end_of_day_balance : ℤ
  pub loss_floor_locked_at_zero : Bool
  pub payout_processed : Bool
  pub operator_provided_floor_usd : Option Number
  pub max_contracts : ℕ

pub record Budget : Type 0 where
  pub liquidation_floor : ℤ
  pub current_buffer : ℤ

-- `Math.min(0, -initialMaximumLoss + gain)`
pub trailing_from : ℤ → ℤ → ℤ
trailing_from loss gain = min_ℤ (pos 0) (gain -ℤ loss)

pub trailing_floor : LossModel → Policy → ℤ
unfolding trailing_from
trailing_floor trading_combine_eod p =
    trailing_from p.initial_maximum_loss
      (max_ℤ (pos 0) (p.highest_end_of_day_balance -ℤ p.starting_balance))
trailing_floor _ p =
    trailing_from p.initial_maximum_loss (max_ℤ (pos 0) p.highest_end_of_day_balance)

unfoldable pub trailing_floor_relative : Policy → ℤ
unfolding trailing_floor
trailing_floor_relative p =
    if p.loss_floor_locked_at_zero || p.payout_processed
    then pos 0
    else trailing_floor p.loss_model p

-- `null` and what is not finite make the function throw.
pub provided_floor : Option Number → Option ℤ
provided_floor (some (finite floor)) = some floor
provided_floor _ = none

unfoldable pub floor_of_model : LossModel → Policy → Option ℤ
floor_of_model operator_provided_floor p = provided_floor p.operator_provided_floor_usd
floor_of_model _ p = some (p.starting_balance +ℤ trailing_floor_relative p)

unfoldable pub liquidation_floor : Policy → Option ℤ
liquidation_floor p = floor_of_model p.loss_model p

unfoldable pub risk_budget : ℤ → Policy → Option Budget
risk_budget equity p = elim (liquidation_floor p) [
  | none ↦ none
  | some floor ↦
      some (record { liquidation_floor = floor; current_buffer = max_ℤ (pos 0) (equity -ℤ floor) })
]
