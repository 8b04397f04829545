-- ===== src/Risk/Engine/Entry.antt =====
-- src/risk/risk-engine.ts: the size, the prices and the risk of an entry, and validateEntryRisk.
use glitch_topstep.Prelude.Results.{Result, ok, err, ◌>>=◌, ◌>>◌, require, refuse_if}
use glitch_topstep.Domain.EntryReference.{resolve_executable_reference_price}
use glitch_topstep.Execution.Amendment.{Side, long, short}
use glitch_topstep.Execution.Brackets.{
  BracketTicks, BracketResult, computed, is_tick_aligned, calculate_bracket_ticks,
}
use glitch_topstep.Risk.Mll.{Policy, Budget, risk_budget}
use glitch_topstep.Risk.Portfolio.{quantity_of}
use glitch_topstep.State.DataQuality.{evaluate_data_quality}
use glitch_topstep.Risk.Engine.{
  TradeIntent, AccountSnapshot, RiskSettings, RiskContext, ValidatedEntry, Rejection,
  quantity_invalid, protected_market_entry_required, hard_contract_capacity_exceeded,
  stop_not_tick_aligned, target_not_tick_aligned, entry_price_range_missing,
  entry_price_range_invalid, no_quote, no_reference, entry_geometry_invalid_at_latest_price,
  no_hard_loss_buffer, hard_loss_floor_breach, bracket_error, budget_unavailable, entry_side,
  required, check_age, check_quality, check_identity, is_delivered, check_version, check_exposure,
}
use glitch_topstep.Prelude.{
  ltb, if◌then◌else◌, is_some, ℤ, pos, ◌+ℤ◌, ◌*ℤ◌, ltb_ℤ, leb_ℤ, Number, finite, ℕ, ◌-◌, Bool, not,
  ◌&&◌, Option, none, some,
}

-- How many contracts, and the prices of the stop and of the target.
pub record EntryRequest : Type 0 where
  pub contracts : ℕ
  pub stop : ℤ
  pub target : ℤ

-- `!quantity || !Number.isInteger(quantity) || quantity < 1`
abbrev pub quantity_given : Option Number → Option ℕ
quantity_given none = none
quantity_given (some n) = quantity_of n

unfoldable pub read_request : TradeIntent → Result Rejection EntryRequest
read_request i = do
  quantity ← required (quantity_given i.quantity) quantity_invalid
  require i.is_market protected_market_entry_required
  stop ← required i.stop_loss protected_market_entry_required
  target ← required i.take_profit protected_market_entry_required
  ok (record { contracts = quantity; stop = stop; target = target })

unfoldable pub check_size : EntryRequest → AccountSnapshot → Policy → Result Rejection (Unit {0})
unfolding is_tick_aligned
check_size r s policy = do
  refuse_if (ltb (policy.max_contracts - s.total_open_contracts) r.contracts)
      hard_contract_capacity_exceeded
  require (is_tick_aligned (finite r.stop) (finite s.tick_size)) stop_not_tick_aligned
  require (is_tick_aligned (finite r.target) (finite s.tick_size)) target_not_tick_aligned

unfoldable pub check_range : TradeIntent → Result Rejection (Unit {0})
check_range i = if not (is_delivered i.schema_version) then ok tt else do
  low ← required i.entry_price_min entry_price_range_missing
  high ← required i.entry_price_max entry_price_range_missing
  refuse_if (ltb_ℤ high low) entry_price_range_invalid

abbrev pub geometry_ok : Side → ℤ → ℤ → ℤ → Bool
geometry_ok long reference stop target = ltb_ℤ stop reference && ltb_ℤ reference target
geometry_ok short reference stop target = ltb_ℤ target reference && ltb_ℤ reference stop

abbrev pub brackets_or_error : BracketResult → Result Rejection BracketTicks
brackets_or_error (computed b) = ok b
brackets_or_error e = err (bracket_error e)

-- What the account loses if the stop is hit, with slippage and fees.
unfoldable pub entry_risk_usd : RiskSettings → ℤ → ℕ → BracketTicks → ℤ
entry_risk_usd settings tick_value quantity b =
    pos b.stop_ticks *ℤ tick_value *ℤ pos quantity
    +ℤ settings.slippage_reserve_ticks *ℤ tick_value *ℤ pos quantity
    +ℤ settings.estimated_round_turn_fees_usd *ℤ pos quantity

unfoldable pub check_budget : ℤ → ℤ → Policy → Result Rejection Budget
unfolding risk_budget
check_budget risk_usd equity policy = do
  budget ← required (risk_budget equity policy) budget_unavailable
  refuse_if (leb_ℤ budget.current_buffer (pos 0)) no_hard_loss_buffer
  refuse_if (leb_ℤ budget.current_buffer risk_usd) hard_loss_floor_breach
  ok budget

unfoldable pub price_entry :
    Side → EntryRequest → AccountSnapshot → Policy → RiskSettings → Result Rejection ValidatedEntry
unfolding resolve_executable_reference_price calculate_bracket_ticks entry_risk_usd check_budget
price_entry side r s policy settings = do
  reference ← required (resolve_executable_reference_price side s.status.quote) no_reference
  require (geometry_ok side reference r.stop r.target) entry_geometry_invalid_at_latest_price
  brackets ← brackets_or_error (calculate_bracket_ticks side reference r.stop r.target s.tick_size)
  budget ←
      check_budget (entry_risk_usd settings s.tick_value r.contracts brackets) s.conservative_equity
        policy
  ok (record {
    quantity = r.contracts;
    reference_price = reference;
    risk_usd = entry_risk_usd settings s.tick_value r.contracts brackets;
    risk_budget = budget;
    stop_ticks = brackets.stop_ticks;
    target_ticks = brackets.target_ticks;
  })

unfoldable pub validate_entry_risk :
    TradeIntent
    → AccountSnapshot
    → Policy
    → RiskSettings
    → RiskContext
    → ℤ
    → Result Rejection ValidatedEntry
unfolding check_age check_quality evaluate_data_quality check_identity check_version check_exposure
    read_request check_size check_range price_entry
validate_entry_risk i s policy settings c now = do
  side ← entry_side i.action
  check_age settings now i.created_utc
  check_quality (evaluate_data_quality settings.limits s.status now)
  check_identity i s c
  check_version i s c now
  require (is_some s.status.quote) no_quote
  check_exposure side s c
  r ← read_request i
  check_size r s policy
  check_range i
  price_entry side r s policy settings
