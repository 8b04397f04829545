-- ===== src/Execution/GatewayMode.antt =====
-- src/execution/gateway-mode.ts: what the gateway may do in its present state. The details of gates are
-- left out but for the issues that a downgrade names.
pub mod Agreement
mod Examples
use glitch_topstep.Execution.Amendment.{Side, long, short}
use glitch_topstep.Execution.Admission.{TradingMode, is_disabled}
use glitch_topstep.Execution.Store.Recovery.{RecoveryStatus}
use glitch_topstep.Ownership.ScaleIn.{ScaleIn, validate_scale_in}
use glitch_topstep.Risk.Engine.{AccountSnapshot}
use glitch_topstep.State.DataQuality.{
  Issue, other_issue, set_from, VenueStatus, Limits, Quality, evaluate_data_quality,
}
use glitch_topstep.Prelude.{
  ◌>>=◌, ltb, leb, ◌==◌, if◌then◌else◌, ltb→lt, leb→le, ==_iff, Bool-cases, and_left, and_right,
  Option-cases, is_some, is_none, or_else, length, is_empty, length-append, some_of, some_inj,
  every, keep, find, length-keep-le, All, All-map, All-keep, All-Mem, if-All, ℤ, pos, negsuc,
  pos_part, neg_part, sub_ℕ, ◌+ℤ◌, ◌-ℤ◌, ◌*ℤ◌, ◌≤ℤ◌, ◌<ℤ◌, ltb_ℤ, leb_ℤ, eqb_ℤ, max_ℤ, min_ℤ,
  +ℤ_parts, -ℤ_parts, eq_of_parts, int_laws, Number, nan, neg_infinity, pos_infinity, finite,
  is_finite, num_lt, num_eq, num_le, is_positive, ℕ, zero, suc, ◌+◌, ◌-◌, ◌*◌, ◌/◌, ◌%◌, ◌≤◌, ◌<◌,
  min, max, ◌≡◌, refl, sym, ap, ◌∙◌, ◌≢◌, ◌↔◌, ◌⊎◌, inl, inr, Bool, true, false, not, ◌&&◌, ◌||◌,
  Option, none, some, List, [], ◌∷◌, ◌++◌, map, take, take_all, arith, ℕ_discrete,
}

pub data EffectiveGatewayMode : Type 0 where
  disabled shadow armed degraded_armed : EffectiveGatewayMode

pub data GateId : Type 0 where
  state_complete quote_stale reconciliation_current : GateId
  risk_reduction_technically_supported new_exposure_technically_supported : GateId

pub record ExecutionGate : Type 0 where
  pub id : GateId
  pub passed : Bool
  pub issues : List Issue

pub record ResolvedGatewayMode : Type 0 where
  pub configured : TradingMode
  pub effective : EffectiveGatewayMode
  pub downgrade_reason : List Issue

pub data ExposureFailure : Type 0 where
  auth_degraded trading_disabled state_incomplete can_trade scale_in_blocked : ExposureFailure
  no_open_orders capacity recovery : ExposureFailure

-- The one among the other issues that the gateway names itself.
abbrev pub reconciliation_not_current : Issue
reconciliation_not_current = other_issue 0

-- isReconciliationCurrent of src/state/venue-state.ts.
unfoldable pub is_reconciliation_current : VenueStatus → Bool
is_reconciliation_current s =
    is_some s.reconciliation.last_succeeded_at && (s.reconciliation.generation == s.generation)

abbrev pub is_older_than : ℤ → Option ℤ → Bool
is_older_than limit none = false
is_older_than limit (some age) = ltb_ℤ limit age

pub armed_safety_gates : Limits → VenueStatus → Quality → List ExecutionGate
unfolding is_reconciliation_current
armed_safety_gates l s q =
    record { id = state_complete; passed = q.state_complete; issues = q.issues }
    ∷ record {
      id = quote_stale;
      passed = not (is_older_than l.max_quote_age_ms q.quote_age_ms);
      issues = [];
    }
    ∷ record { id = reconciliation_current; passed = is_reconciliation_current s; issues = [] }
    ∷ []

-- Why the gate downgrades the gateway, if it does.
abbrev pub gate_reasons : GateId → List Issue → List Issue
gate_reasons state_complete issues = issues
gate_reasons reconciliation_current issues = reconciliation_not_current ∷ []
gate_reasons _ issues = []

abbrev pub reasons_of : List ExecutionGate → List Issue
reasons_of [] = []
reasons_of (g ∷ gs) =
    let rest = reasons_of gs in if g.passed then rest else gate_reasons g.id g.issues ++ rest

unfoldable pub armed_gate_reasons : Limits → VenueStatus → ℤ → List Issue
unfolding armed_safety_gates evaluate_data_quality set_from
armed_gate_reasons l s now =
    set_from [] (reasons_of (armed_safety_gates l s (evaluate_data_quality l s now)))

unfoldable pub resolve_gateway_mode : TradingMode → Limits → VenueStatus → ℤ → ResolvedGatewayMode
unfolding armed_gate_reasons
resolve_gateway_mode TradingMode.disabled l s now = record {
  configured = TradingMode.disabled;
  effective = EffectiveGatewayMode.disabled;
  downgrade_reason = [];
}
resolve_gateway_mode TradingMode.shadow l s now = record {
  configured = TradingMode.shadow;
  effective = EffectiveGatewayMode.shadow;
  downgrade_reason = [];
}
resolve_gateway_mode TradingMode.armed l s now =
    let reasons = armed_gate_reasons l s now in
    record {
      configured = TradingMode.armed;
      effective = if is_empty reasons then EffectiveGatewayMode.armed else degraded_armed;
      downgrade_reason = reasons;
    }

unfoldable pub permits_live_orders : EffectiveGatewayMode → Bool
permits_live_orders EffectiveGatewayMode.armed = true
permits_live_orders _ = false

unfoldable pub permits_risk_reduction : EffectiveGatewayMode → Bool
permits_risk_reduction EffectiveGatewayMode.armed = true
permits_risk_reduction degraded_armed = true
permits_risk_reduction _ = false

unfoldable pub risk_reduction_gate :
    TradingMode → EffectiveGatewayMode → AccountSnapshot → ExecutionGate
unfolding permits_risk_reduction
risk_reduction_gate mode effective s = record {
  id = risk_reduction_technically_supported;
  passed =
      if is_disabled mode
      then false
      else (s.instrument_open_contracts == 0) || permits_risk_reduction effective;
  issues = [];
}

abbrev pub failure_if : Bool → ExposureFailure → List ExposureFailure
failure_if test failure = if test then failure ∷ [] else []

abbrev pub is_allowed_in : ScaleIn → Bool
is_allowed_in ScaleIn.allowed = true
is_allowed_in _ = false

abbrev pub scales_in : Side → AccountSnapshot → Bool
scales_in side s =
    is_allowed_in (validate_scale_in side s.positions s.open_orders s.contract_id s.account_id)

abbrev pub exposure_failure : AccountSnapshot → List ExposureFailure
exposure_failure s =
    if not (s.instrument_open_contracts == 0)
    then failure_if (not (scales_in long s) && not (scales_in short s)) scale_in_blocked
    else failure_if (not (is_empty s.open_orders)) no_open_orders

-- What stands against new exposure, in the order of the tests.
unfoldable pub exposure_failures :
    AccountSnapshot → RecoveryStatus → TradingMode → Quality → ℕ → Bool → List ExposureFailure
unfolding validate_scale_in
exposure_failures s r mode q max_contracts degraded =
    failure_if degraded auth_degraded
    ++ (failure_if (is_disabled mode) trading_disabled
        ++ (failure_if (not q.state_complete) state_incomplete
            ++ (failure_if (not s.can_trade) can_trade
                ++ (exposure_failure s
                    ++ (failure_if (leb (max_contracts - s.total_open_contracts) 0) capacity
                        ++ failure_if r.blocking_new_exposure recovery)))))

abbrev pub new_exposure_gate :
    AccountSnapshot → RecoveryStatus → TradingMode → Quality → ℕ → Bool → ExecutionGate
new_exposure_gate s r mode q max_contracts degraded = record {
  id = new_exposure_technically_supported;
  passed = is_empty (exposure_failures s r mode q max_contracts degraded);
  issues = [];
}

unfoldable pub build_execution_gates :
    AccountSnapshot → Limits → RecoveryStatus → TradingMode → ℕ → ℤ → Bool → List ExecutionGate
unfolding armed_safety_gates evaluate_data_quality risk_reduction_gate resolve_gateway_mode
    exposure_failures
build_execution_gates s l r mode max_contracts now degraded =
    let q = evaluate_data_quality l s.status now in
    armed_safety_gates l s.status q
    ++ risk_reduction_gate mode (resolve_gateway_mode mode l s.status now).effective s
      ∷ new_exposure_gate s r mode q max_contracts degraded
      ∷ []
