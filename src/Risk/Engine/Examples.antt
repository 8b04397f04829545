-- ===== src/Risk/Engine/Examples.antt =====
-- The checks of an entry, on one account.
use glitch_topstep.Prelude.Results.{ok, err}
use glitch_topstep.Domain.EntryReference.{Quote}
use glitch_topstep.Execution.Amendment.{long}
use glitch_topstep.Risk.Mll.{
  Policy, trading_combine_eod, liquidation_floor, floor_of_model, trailing_floor_relative,
}
use glitch_topstep.Risk.Portfolio.{quantity_of}
use glitch_topstep.State.DataQuality.{idle, VenueStatus, evaluate_data_quality}
use glitch_topstep.Risk.Engine.{
  enter_long, v3, TradeIntent, AccountSnapshot, RiskSettings, RiskContext, ValidatedEntry,
  incomplete, check_age,
}
use glitch_topstep.Risk.Engine.Entry.{validate_entry_risk}
use glitch_topstep.Risk.Engine.Accepted.{IsSafe, validate_entry_risk-IsSafe}
use glitch_topstep.Risk.Engine.Issues.{Listed, validate_entry_risk-Listed}
use glitch_topstep.Prelude.{
  pos, ◌+ℤ◌, ◌-ℤ◌, ◌*ℤ◌, max_ℤ, min_ℤ, finite, ◌≡◌, refl, true, false, Option, none, some, [],
}

abbrev pub intent : TradeIntent
intent = record {
  schema_version = v3;
  created_utc = some (pos 9000);
  instrument = 1;
  account = 7;
  action = enter_long;
  snapshot_hash = 42;
  quantity = some (finite (pos 2));
  is_market = true;
  stop_loss = some (pos 40000);
  take_profit = some (pos 41200);
  packet_id = some 3;
  contract_id = some 5;
  scope_hash = none;
  scope_generation = none;
  expires_utc = some (some (pos 20000));
  entry_price_min = some (pos 40300);
  entry_price_max = some (pos 40500);
}

abbrev pub quote : Quote
quote = record {
  last_price = finite (pos 40400);
  best_bid = finite (pos 40390);
  best_ask = finite (pos 40410);
  timestamp = some (pos 9500);
}

abbrev pub status : Option Quote → VenueStatus
status q = record {
  captured_at = some (pos 9900);
  quote = q;
  generation = 1;
  reconciliation = record {
    state = idle;
    generation = 1;
    last_started_at = none;
    last_succeeded_at = none;
  };
  state_issues = [];
  state_complete = true;
}

-- A tick is 50 units of price, and 125 cents.
abbrev pub snapshot : VenueStatus → AccountSnapshot
snapshot s = record {
  account_id = 11;
  account_name = 7;
  can_trade = true;
  contract_id = 5;
  tick_size = pos 50;
  tick_value = pos 125;
  status = s;
  positions = [];
  open_orders = [];
  instrument_open_contracts = 0;
  total_open_contracts = 1;
  conservative_equity = pos 5000000;
}

abbrev pub policy : Policy
policy = record {
  loss_model = trading_combine_eod;
  starting_balance = pos 5000000;
  initial_maximum_loss = pos 200000;
  highest_end_of_day_balance = pos 5000000;
  loss_floor_locked_at_zero = false;
  payout_processed = false;
  operator_provided_floor_usd = none;
  max_contracts = 3;
}

abbrev pub settings : RiskSettings
settings = record {
  estimated_round_turn_fees_usd = pos 150;
  slippage_reserve_ticks = pos 2;
  limits = record { max_quote_age_ms = pos 5000; max_state_age_ms = pos 10000 };
  max_intent_age_ms = pos 60000;
}

abbrev pub context : RiskContext
context = record {
  expected_account_id = 11;
  expected_account_name = 7;
  expected_instrument = 1;
  expected_snapshot_hash = 42;
  expected_packet_id = some 3;
  expected_contract_id = none;
  expected_scope_hash = none;
  expected_scope_generation = none;
  daily_capture_locked = false;
  armed_mode = true;
}

-- 410 units to the stop are 9 ticks.
abbrev pub entry : ValidatedEntry
entry = record {
  quantity = 2;
  reference_price = pos 40410;
  risk_usd = pos 3050;
  risk_budget = record { liquidation_floor = pos 4800000; current_buffer = pos 200000 };
  stop_ticks = 9;
  target_ticks = 15;
}

pub accepts :
    validate_entry_risk intent (snapshot (status (some quote))) policy settings context (pos 10000)
    ≡ ok entry
unfolding validate_entry_risk ◌-ℤ◌ ◌+ℤ◌ ◌*ℤ◌ max_ℤ min_ℤ quantity_of liquidation_floor
    floor_of_model trailing_floor_relative
accepts = refl

validate_entry_risk-IsSafe_example :
    IsSafe intent (snapshot (status (some quote))) policy settings context (pos 10000) entry
validate_entry_risk-IsSafe_example =
    validate_entry_risk-IsSafe intent (snapshot (status (some quote))) policy settings context
      (pos 10000) entry accepts

in_time : check_age settings (pos 10000) intent.created_utc ≡ ok tt
unfolding check_age ◌-ℤ◌
in_time = refl

without_quote :
    (evaluate_data_quality settings.limits (status none) (pos 10000)).state_complete ≡ false
unfolding evaluate_data_quality ◌-ℤ◌
without_quote = refl

validate_entry_risk-Listed_example :
    (issue : _) × (validate_entry_risk intent
        (snapshot (status none))
        policy
        settings
        context
        (pos 10000)
      ≡ err (incomplete issue))
    × Listed
        (status none)
        (evaluate_data_quality settings.limits (status none) (pos 10000)).issues
        issue
validate_entry_risk-Listed_example =
    validate_entry_risk-Listed intent (snapshot (status none)) policy settings context (pos 10000)
      long refl in_time without_quote
