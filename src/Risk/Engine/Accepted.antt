-- ===== src/Risk/Engine/Accepted.antt =====
-- What an accepted entry satisfies.
use glitch_topstep.Risk.Engine.Checks.{
  check_budget-ok, validate-Steps, check_quality_complete, check_size-capacity,
  read_request-Requested, MayExpose, check_exposure-MayExpose, IsIdentified,
  check_identity-IsIdentified, price_entry-Priced,
}
use glitch_topstep.Prelude.Results.{ok}
use glitch_topstep.Execution.Amendment.{Side}
use glitch_topstep.Execution.Brackets.{stop_distance}
use glitch_topstep.Execution.Brackets.Rounding.{calculate_bracket_ticks-bounds}
use glitch_topstep.Risk.Mll.{Policy, liquidation_floor}
use glitch_topstep.State.DataQuality.Freshness.{Known, evaluate-Known}
use glitch_topstep.Risk.Engine.{
  TradeIntent, AccountSnapshot, RiskSettings, RiskContext, ValidatedEntry, entry_side,
}
use glitch_topstep.Risk.Engine.Entry.{geometry_ok, entry_risk_usd, validate_entry_risk}
use glitch_topstep.Prelude.{ℤ, pos, pos_part, ◌+ℤ◌, ◌≤ℤ◌, ◌<ℤ◌, ◌+◌, ◌*◌, ◌≤◌, ◌≡◌, true, some}

-- What the venue's state and the account must be for an entry.
pub record IsSafe (i : TradeIntent) (s : AccountSnapshot) (policy : Policy)
    (settings : RiskSettings) (c : RiskContext) (now : ℤ) (v : ValidatedEntry) : Type 0 where
  pub side : Side
  pub is_entry : entry_side i.action ≡ ok side
  pub identified : IsIdentified i s c
  pub known : Known settings.limits s.status now
  pub may_expose : MayExpose side s c
  pub some_contracts : 1 ≤ v.quantity
  pub capacity : v.quantity + s.total_open_contracts ≤ policy.max_contracts
  pub stop : ℤ
  pub target : ℤ
  pub has_stop : i.stop_loss ≡ some stop
  pub has_target : i.take_profit ≡ some target
  pub protected : geometry_ok side v.reference_price stop target ≡ true
  pub stop_covered :
      stop_distance side v.reference_price stop ≤ℤ pos (v.stop_ticks * pos_part s.tick_size)
  pub risk :
      v.risk_usd
      ≡ entry_risk_usd settings s.tick_value v.quantity
          (record { stop_ticks = v.stop_ticks; target_ticks = v.target_ticks })
  pub floor : ℤ
  pub has_floor : liquidation_floor policy ≡ some floor
  pub above_floor : floor +ℤ v.risk_usd <ℤ s.conservative_equity

-- An entry is accepted only for an account that may trade and is the one expected, for the instrument
-- and the snapshot that the decision was made on, and on complete data. It holds at least one contract
-- and, with those that are open, no more than the policy allows. Either no position and no order is
-- there or the position may be added to. Its stop and target lie on either side of the reference
-- price, and the risk that is reserved, at a stop no nearer than the one asked for, with slippage and
-- fees, leaves the equity above the liquidation floor.
pub validate_entry_risk-IsSafe :
    (i : TradeIntent) (s : AccountSnapshot) (policy : Policy) (settings : RiskSettings)
    (c : RiskContext) (now : ℤ) (v : ValidatedEntry)
    → validate_entry_risk i s policy settings c now ≡ ok v
    → IsSafe i s policy settings c now v
validate_entry_risk-IsSafe i s policy settings c now v h =
    let steps = validate-Steps i s policy settings c now v h in
    let r = steps.request in
    let (one, _, stop, target) = read_request-Requested i r steps.has_request in
    let (quantity, resolved, shaped, bracketed, risk, budgeted) =
      price_entry-Priced steps.side r s policy settings v steps.priced in
    let (floor, has_floor, above) = check_budget-ok _ _ _ _ budgeted in
    let bounds = calculate_bracket_ticks-bounds _ _ _ _ _ _ bracketed in
    record {
      side = steps.side;
      is_entry = steps.has_side;
      identified = check_identity-IsIdentified i s c steps.identity_checked;
      known =
          (evaluate-Known settings.limits s.status now
            (check_quality_complete _ steps.quality_checked)).0;
      may_expose = check_exposure-MayExpose steps.side s c steps.exposure_checked;
      some_contracts = rw quantity one;
      capacity = rw quantity (check_size-capacity r s policy steps.size_checked one);
      stop = r.stop;
      target = r.target;
      has_stop = stop;
      has_target = target;
      protected = shaped;
      stop_covered = bounds.0;
      risk = rw quantity risk;
      floor = floor;
      has_floor = has_floor;
      above_floor = above;
    }
