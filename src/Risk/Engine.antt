-- ===== src/Risk/Engine.antt =====
-- src/risk/risk-engine.ts: whether an intent may open a position, and at what risk. A check that throws
-- is an error of the result, under its code. Names, ids and hashes are numbers that are equal when the
-- texts are (those of an instrument when their upper cases are); a time is the number of milliseconds
-- that it parses to, or none. Prices are whole numbers of one small unit and amounts whole cents, both
-- finite, as JSON's numbers are; a quantity that is not whole stands as `nan`. The tolerance of 1e-8
-- dollars is less than a cent.
-- The custom tag, which is made from the intent's id, is left out. The checks of the entry's size and
-- prices, and the whole, are in the child Entry.
pub mod Entry
pub mod Checks
pub mod Accepted
pub mod Issues
pub mod Examples
use glitch_topstep.Prelude.Results.{Result, ok, err, ◌>>=◌, ◌>>◌, require, refuse_if}
use glitch_topstep.Domain.EntryReference.{Quote, resolve_executable_reference_price}
use glitch_topstep.Execution.Amendment.{Side, long, short}
use glitch_topstep.Execution.Brackets.{
  BracketTicks, BracketResult, computed, tick_size_invalid, stop_not_on_loss_side,
  target_not_on_profit_side, bracket_distance_too_small, is_tick_aligned, calculate_bracket_ticks,
}
use glitch_topstep.Ownership.ScaleIn.{Position, Order, ScaleIn, validate_scale_in}
use glitch_topstep.Risk.Mll.{Policy, Budget, risk_budget}
use glitch_topstep.Risk.Portfolio.{quantity_of}
use glitch_topstep.State.DataQuality.{
  Issue, quote_locked, quote_geometry_invalid, quote_missing, quote_stale, account_state_stale,
  quote_timestamp_future, account_state_timestamp_future, quote_timestamp_invalid,
  account_state_timestamp_invalid, venue_state_incomplete, includes, VenueStatus, Limits, Quality,
  evaluate_data_quality, is_blocked_locked, is_blocked_invalid,
}
use glitch_topstep.Prelude.{
  ltb, leb, ◌==◌, if◌then◌else◌, ltb→lt, leb→le, ==_iff, Bool-cases, Option-cases, is_some, is_none,
  or_else, length, is_empty, length-append, some_of, some_inj, every, keep, find, length-keep-le,
  All, ℤ, pos, negsuc, pos_part, neg_part, sub_ℕ, ◌+ℤ◌, ◌-ℤ◌, ◌*ℤ◌, ◌≤ℤ◌, ◌<ℤ◌, ltb_ℤ, leb_ℤ, eqb_ℤ,
  max_ℤ, min_ℤ, +ℤ_parts, -ℤ_parts, eq_of_parts, int_laws, Number, nan, neg_infinity, pos_infinity,
  finite, is_finite, num_lt, num_eq, num_le, is_positive, ℕ, zero, suc, ◌+◌, ◌-◌, ◌*◌, ◌/◌, ◌≤◌,
  ◌<◌, min, max, ◌≡◌, refl, sym, ap, ◌∙◌, ◌≢◌, ◌↔◌, ◌⊎◌, inl, inr, Bool, true, false, not, ◌&&◌,
  ◌||◌, Option, none, some, List, [], ◌∷◌, ◌++◌, map, arith, ℕ_discrete,
}

pub data TradeAction : Type 0 where
  enter_long enter_short hold move_stop move_tp exit nothing : TradeAction

pub data SchemaVersion : Type 0 where
  v2 v3 v4 : SchemaVersion

pub record TradeIntent : Type 0 where
  pub schema_version : SchemaVersion
  pub created_utc : Option ℤ
  pub instrument : ℕ
  pub account : ℕ
  pub action : TradeAction
  pub snapshot_hash : ℕ
  pub quantity : Option Number
  pub is_market : Bool
  pub stop_loss : Option ℤ
  pub take_profit : Option ℤ
  pub packet_id : Option ℕ
  pub contract_id : Option ℕ
  pub scope_hash : Option ℕ
  pub scope_generation : Option ℕ
  -- Given or not, and what it parses to.
  pub expires_utc : Option (Option ℤ)
  pub entry_price_min : Option ℤ
  pub entry_price_max : Option ℤ

pub record AccountSnapshot : Type 0 where
  pub account_id : ℕ
  pub account_name : ℕ
  pub can_trade : Bool
  pub contract_id : ℕ
  pub tick_size : ℤ
  pub tick_value : ℤ
  pub status : VenueStatus
  pub positions : List Position
  pub open_orders : List Order
  pub instrument_open_contracts : ℕ
  pub total_open_contracts : ℕ
  pub conservative_equity : ℤ

pub record RiskSettings : Type 0 where
  pub estimated_round_turn_fees_usd : ℤ
  pub slippage_reserve_ticks : ℤ
  pub limits : Limits
  pub max_intent_age_ms : ℤ

pub record RiskContext : Type 0 where
  pub expected_account_id : ℕ
  pub expected_account_name : ℕ
  pub expected_instrument : ℕ
  pub expected_snapshot_hash : ℕ
  pub expected_packet_id : Option ℕ
  pub expected_contract_id : Option ℕ
  pub expected_scope_hash : Option ℕ
  pub expected_scope_generation : Option ℕ
  pub daily_capture_locked : Bool
  pub armed_mode : Bool

pub record ValidatedEntry : Type 0 where
  pub quantity : ℕ
  pub reference_price : ℤ
  pub risk_usd : ℤ
  pub risk_budget : Budget
  pub stop_ticks : ℕ
  pub target_ticks : ℕ

pub data Rejection : Type 0 where
  entry_action_required intent_timestamp_invalid intent_stale : Rejection
  incomplete : Issue → Rejection
  account_cannot_trade account_id_mismatch account_name_mismatch : Rejection
  instrument_mismatch snapshot_hash_mismatch daily_capture_new_exposure_locked : Rejection
  armed_intent_v3_or_v4_required packet_id_mismatch contract_id_mismatch : Rejection
  scope_hash_mismatch scope_generation_mismatch intent_delivery_expired : Rejection
  no_quote no_reference position_side_conflict working_order_ownership_unresolved : Rejection
  position_addition_not_implemented quantity_invalid protected_market_entry_required : Rejection
  hard_contract_capacity_exceeded stop_not_tick_aligned target_not_tick_aligned : Rejection
  entry_price_range_missing entry_price_range_invalid : Rejection
  entry_geometry_invalid_at_latest_price no_hard_loss_buffer hard_loss_floor_breach : Rejection
  bracket_error : BracketResult → Rejection
  budget_unavailable : Rejection

-- The side of an entry.
abbrev pub entry_side : TradeAction → Result Rejection Side
entry_side enter_long = ok long
entry_side enter_short = ok short
entry_side _ = err entry_action_required

-- `?? error`
abbrev pub required {ℓ} : {A : Type ℓ} → Option A → Rejection → Result Rejection A
required none e = err e
required (some a) e = ok a

-- `left === right`, where both may be undefined.
abbrev pub same_option : Option ℕ → Option ℕ → Bool
same_option none none = true
same_option (some a) (some b) = a == b
same_option _ _ = false

-- `expected !== undefined && actual !== expected`
abbrev pub differs_from : Option ℕ → Option ℕ → Bool
differs_from none actual = false
differs_from expected actual = not (same_option actual expected)

unfoldable pub check_age : RiskSettings → ℤ → Option ℤ → Result Rejection (Unit {0})
check_age settings now none = err intent_timestamp_invalid
check_age settings now (some created) =
    refuse_if (ltb_ℤ settings.max_intent_age_ms (now -ℤ created)) intent_stale

-- The issue that incomplete data is refused with: the first of these that applies.
unfoldable pub refused_issue : Quality → Issue
refused_issue q =
    if includes quote_locked q.issues || is_blocked_locked q.execution_eligibility
    then quote_locked
    else if includes quote_geometry_invalid q.issues || is_blocked_invalid q.execution_eligibility
    then quote_geometry_invalid
    else if includes quote_missing q.issues
    then quote_missing
    else if includes quote_stale q.issues
    then quote_stale
    else if includes account_state_stale q.issues
    then account_state_stale
    else if includes quote_timestamp_future q.issues
    then quote_timestamp_future
    else if includes account_state_timestamp_future q.issues
    then account_state_timestamp_future
    else if includes quote_timestamp_invalid q.issues
    then quote_timestamp_invalid
    else if includes account_state_timestamp_invalid q.issues
    then account_state_timestamp_invalid
    else venue_state_incomplete

unfoldable pub check_quality : Quality → Result Rejection (Unit {0})
unfolding refused_issue
check_quality q = require q.state_complete (incomplete (refused_issue q))

unfoldable pub check_identity :
    TradeIntent → AccountSnapshot → RiskContext → Result Rejection (Unit {0})
check_identity i s c = do
  require s.can_trade account_cannot_trade
  require (s.account_id == c.expected_account_id) account_id_mismatch
  require (s.account_name == c.expected_account_name && i.account == c.expected_account_name)
      account_name_mismatch
  require (i.instrument == c.expected_instrument) instrument_mismatch
  require (i.snapshot_hash == c.expected_snapshot_hash) snapshot_hash_mismatch
  refuse_if c.daily_capture_locked daily_capture_new_exposure_locked

abbrev pub is_delivered : SchemaVersion → Bool
is_delivered v2 = false
is_delivered _ = true

-- A time that does not parse is never past.
abbrev pub is_expired : Option (Option ℤ) → ℤ → Bool
is_expired none now = true
is_expired (some none) now = false
is_expired (some (some time)) now = ltb_ℤ time now

unfoldable pub check_delivery :
    TradeIntent → AccountSnapshot → RiskContext → ℤ → Result Rejection (Unit {0})
check_delivery i s c now = do
  require (same_option i.packet_id c.expected_packet_id) packet_id_mismatch
  require (same_option i.contract_id (some (or_else c.expected_contract_id s.contract_id)))
      contract_id_mismatch
  refuse_if (differs_from c.expected_scope_hash i.scope_hash) scope_hash_mismatch
  refuse_if (differs_from c.expected_scope_generation i.scope_generation) scope_generation_mismatch
  refuse_if (is_expired i.expires_utc now) intent_delivery_expired

unfoldable pub check_version :
    TradeIntent → AccountSnapshot → RiskContext → ℤ → Result Rejection (Unit {0})
unfolding check_delivery
check_version i s c now = do
  refuse_if (c.armed_mode && not (is_delivered i.schema_version)) armed_intent_v3_or_v4_required
  if is_delivered i.schema_version then check_delivery i s c now else ok tt

abbrev pub scale_in_check : ScaleIn → Result Rejection (Unit {0})
scale_in_check ScaleIn.allowed = ok tt
scale_in_check ScaleIn.position_side_conflict = err position_side_conflict
scale_in_check ScaleIn.working_order_ownership_unresolved = err working_order_ownership_unresolved
scale_in_check ScaleIn.no_position = err position_addition_not_implemented

-- A position may be added to; without one, no order may be working.
unfoldable pub check_exposure : Side → AccountSnapshot → RiskContext → Result Rejection (Unit {0})
unfolding validate_scale_in
check_exposure side s c =
    if not (s.instrument_open_contracts == 0)
    then scale_in_check
        (validate_scale_in side s.positions s.open_orders s.contract_id c.expected_account_id)
    else refuse_if (not (is_empty s.open_orders)) working_order_ownership_unresolved
