-- ===== src/Risk/Mll/Examples.antt =====
-- The maximum loss limit at concrete policies.
use glitch_topstep.Risk.Mll.{
  LossModel, trading_combine_eod, operator_provided_floor, Policy, liquidation_floor, risk_budget,
  floor_of_model, trailing_floor_relative,
}
use glitch_topstep.Risk.Mll.Floor.{
  liquidation_floor-bounds, liquidation_floor-Days, none_yet, then_day, rises, locks,
}
use glitch_topstep.Prelude.{
  ℤ, pos, ◌≤ℤ◌, ◌-ℤ◌, ◌+ℤ◌, min_ℤ, max_ℤ, int_laws, ◌≡◌, ◌≢◌, refl, ap, Bool, true, false, ◌||◌,
  ◌⊎◌, none, some,
}

abbrev combine : Policy
combine = record {
  loss_model = trading_combine_eod;
  starting_balance = pos 50000;
  initial_maximum_loss = pos 2000;
  highest_end_of_day_balance = pos 50500;
  loss_floor_locked_at_zero = false;
  payout_processed = false;
  operator_provided_floor_usd = none;
  max_contracts = 5;
}

abbrev later : Policy
later = record (record combine { highest_end_of_day_balance = pos 51500 }) {
  loss_floor_locked_at_zero = true;
}

is_combine : LossModel → Bool
is_combine trading_combine_eod = true
is_combine _ = false

combine-trails : trading_combine_eod ≢ operator_provided_floor
unfolding is_combine
combine-trails e = cc (ap is_combine e)

floor_test : liquidation_floor combine ≡ some (pos 48500)
unfolding liquidation_floor floor_of_model ◌+ℤ◌ trailing_floor_relative min_ℤ ◌-ℤ◌ max_ℤ
floor_test = refl

budget_test :
    risk_budget (pos 48400) combine
    ≡ some (record { liquidation_floor = pos 48500; current_buffer = pos 0 })
unfolding risk_budget liquidation_floor floor_of_model ◌+ℤ◌ max_ℤ trailing_floor_relative ◌-ℤ◌ min_ℤ
budget_test = refl

liquidation_floor-bounds_example :
    (floor : ℤ) × (liquidation_floor combine ≡ some floor)
    × (pos 50000 -ℤ pos 2000 ≤ℤ floor)
    × (floor ≤ℤ pos 50000)
    × (((false || false) ≡ false) ⊎ (floor ≡ pos 50000))
liquidation_floor-bounds_example = liquidation_floor-bounds combine combine-trails (omega int_laws)

liquidation_floor-Days_example :
    (before : ℤ) × (after : ℤ) × (liquidation_floor combine ≡ some before)
    × (liquidation_floor later ≡ some after)
    × (before ≤ℤ after)
liquidation_floor-Days_example =
    liquidation_floor-Days combine later combine-trails (omega int_laws)
      (then_day (then_day none_yet (rises (pos 51500) (omega int_laws))) locks)
