-- ===== src/Execution/Amendment.antt =====
-- src/execution/amendment-safety.ts: whether a protective order may move. Prices are whole numbers of
-- one small unit, so that a division by the tick is compared by multiplication; the rounding of
-- floating-point quotients is not modelled. The sources of src/release/distributed-contract.ts are
-- the four that release/distributed-state-machine.v1.json lists.
mod Envelope
mod Examples
use glitch_topstep.Prelude.{
  ltb, leb, ◌==◌, if◌then◌else◌, ltb→lt, leb→le, ==_iff, Bool-cases, Option-cases, is_some, is_none,
  or_else, length, is_empty, length-append, some_of, some_inj, every, keep, find, length-keep-le,
  All, ℤ, pos, negsuc, pos_part, neg_part, sub_ℕ, ◌+ℤ◌, ◌-ℤ◌, ◌*ℤ◌, ◌≤ℤ◌, ◌<ℤ◌, ltb_ℤ, leb_ℤ, eqb_ℤ,
  max_ℤ, min_ℤ, +ℤ_parts, -ℤ_parts, eq_of_parts, int_laws, Number, nan, neg_infinity, pos_infinity,
  finite, is_finite, num_lt, num_eq, num_le, is_positive, ℕ, zero, suc, ◌+◌, ◌-◌, ◌*◌, ◌/◌, ◌≤◌,
  ◌<◌, min, max, ◌≡◌, refl, sym, ap, ◌∙◌, ◌≢◌, ◌↔◌, ◌⊎◌, inl, inr, Bool, true, false, not, ◌&&◌,
  ◌||◌, Option, none, some, List, [], ◌∷◌, ◌++◌, map, arith, ℕ_discrete,
}

pub data Side : Type 0 where
  long short : Side

pub data Leg : Type 0 where
  stop target : Leg

pub data Source : Type 0 where
  hermes_intent auto_breakeven auto_daily_capture protection_repair : Source

pub data Rejection : Type 0 where
  stop_would_widen stop_widen_exceeds_risk_envelope original_risk_envelope_missing : Rejection
  target_would_widen stop_wrong_side_of_market target_wrong_side_of_entry : Rejection
  current_price_missing market_reference_missing entry_reference_missing : Rejection

pub record RiskEnvelope : Type 0 where
  pub max_protected_loss_ticks : ℕ
  pub stop_boundary_price : ℤ
  pub fees_slippage_reserve_ticks : ℕ

pub record Input : Type 0 where
  pub side : Side
  pub leg : Leg
  pub current_price : Option ℤ
  pub new_price : ℤ
  pub average_entry : Option ℤ
  pub best_bid : Option ℤ
  pub best_ask : Option ℤ
  pub source : Option Source
  pub tick_size : Option ℤ
  pub envelope : Option RiskEnvelope

pub data Verdict : Type 0 where
  accepted : Source → Verdict
  rejected : Rejection → Verdict

pub is_tighten_only : Source → Bool
is_tighten_only hermes_intent = false
is_tighten_only _ = true

-- The price difference that `protectedLossTicks` divides by the tick.
pub protected_loss : Side → ℤ → ℤ → ℤ
protected_loss long entry price = entry -ℤ price
protected_loss short entry price = price -ℤ entry

-- `Math.max(0, Math.round(loss / tick))`
pub build_envelope : Side → ℤ → ℤ → ℕ → Option ℕ → RiskEnvelope
unfolding protected_loss
build_envelope side entry stop_loss tick reserve = record {
  max_protected_loss_ticks =
      (2 * pos_part (protected_loss side entry stop_loss) + tick) / (2 * tick);
  stop_boundary_price = stop_loss;
  fees_slippage_reserve_ticks = or_else reserve 2;
}

-- Towards a larger loss: below for a long position, above for a short one.
pub is_worse : Side → ℤ → ℤ → Bool
is_worse long new old = ltb_ℤ new old
is_worse short new old = ltb_ℤ old new

-- Whether a stop at this price would trade at once.
pub is_marketable : Side → ℤ → ℤ → ℤ → Bool
is_marketable long new bid ask = leb_ℤ ask new
is_marketable short new bid ask = leb_ℤ new bid

-- Whether a target at this price would not take a profit.
pub is_wrong_side : Side → ℤ → ℤ → Bool
is_wrong_side long new entry = leb_ℤ new entry
is_wrong_side short new entry = leb_ℤ entry new

-- A stop that Hermes widens: `none` when the envelope allows it.
pub check_envelope : Side → ℤ → Option RiskEnvelope → Option ℤ → Option ℤ → Option Rejection
check_envelope side new (some env) (some entry) (some tick) =
    if leb_ℤ tick (pos 0)
    then some original_risk_envelope_missing
    else if ltb_ℤ (pos (env.max_protected_loss_ticks + env.fees_slippage_reserve_ticks) *ℤ tick)
        (protected_loss side entry new)
    then some stop_widen_exceeds_risk_envelope
    else if is_worse side new env.stop_boundary_price
    then some stop_widen_exceeds_risk_envelope
    else none
check_envelope _ _ _ _ _ = some original_risk_envelope_missing

pub check_widening : Input → ℤ → Option Source → Option Rejection
check_widening i current none =
    if is_worse i.side i.new_price current then some stop_would_widen else none
check_widening i current (some s) =
    if is_worse i.side i.new_price current
    then if is_tighten_only s
      then some stop_would_widen
      else check_envelope i.side i.new_price i.envelope i.average_entry i.tick_size
    else none

pub check_market : Side → ℤ → Option ℤ → Option ℤ → Option Rejection
check_market side new (some bid) (some ask) =
    if is_marketable side new bid ask then some stop_wrong_side_of_market else none
check_market _ _ _ _ = some market_reference_missing

pub check_entry : Side → ℤ → Option ℤ → Option Rejection
check_entry side new none = some entry_reference_missing
check_entry side new (some entry) =
    if leb_ℤ entry (pos 0)
    then some entry_reference_missing
    else if is_wrong_side side new entry
    then some target_wrong_side_of_entry
    else none

-- The first rejection, if there is one.
infixr 30 ◌then_check◌
abbrev pub ◌then_check◌ : Option Rejection → Option Rejection → Option Rejection
none then_check r = r
some e then_check r = some e

pub check_leg : Leg → Input → ℤ → Option Rejection
check_leg stop i current =
    check_widening i current i.source
    then_check check_market i.side i.new_price i.best_bid i.best_ask
check_leg target i current =
    if is_worse i.side i.new_price current
    then some target_would_widen
    else check_entry i.side i.new_price i.average_entry

pub verdict : Option Source → Option Rejection → Verdict
verdict source none = accepted (or_else source hermes_intent)
verdict source (some r) = rejected r

pub check_current : Input → Option ℤ → Verdict
check_current i none = rejected current_price_missing
check_current i (some current) =
    if leb_ℤ current (pos 0)
    then rejected current_price_missing
    else verdict i.source (check_leg i.leg i current)

pub validate_amendment : Input → Verdict
validate_amendment i = check_current i i.current_price
