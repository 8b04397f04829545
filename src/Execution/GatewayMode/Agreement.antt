-- ===== src/Execution/GatewayMode/Agreement.antt =====
-- The mode and the gates agree with the checks of data and of entries.
use glitch_topstep.Prelude.Results.{ok}
use glitch_topstep.Execution.Amendment.{Side, long, short}
use glitch_topstep.Execution.Admission.{TradingMode, is_disabled}
use glitch_topstep.Execution.Store.Recovery.{RecoveryStatus}
use glitch_topstep.Ownership.ScaleIn.{validate_scale_in}
use glitch_topstep.Risk.Mll.{Policy}
use glitch_topstep.Risk.Engine.{
  TradeIntent, AccountSnapshot, RiskSettings, RiskContext, ValidatedEntry, check_exposure,
}
use glitch_topstep.Risk.Engine.Entry.{validate_entry_risk}
use glitch_topstep.Risk.Engine.Checks.{
  validate-Steps, check_quality_complete, scale_in_check-allowed,
}
use glitch_topstep.Risk.Engine.Accepted.{validate_entry_risk-IsSafe}
use glitch_topstep.State.DataQuality.{
  Issue, add_issue, set_from, VenueStatus, Limits, evaluate_data_quality,
}
use glitch_topstep.Execution.GatewayMode.{
  is_reconciliation_current, reasons_of, armed_safety_gates, armed_gate_reasons,
  resolve_gateway_mode, permits_live_orders, permits_risk_reduction, state_complete, quote_stale,
  reconciliation_current, exposure_failure, exposure_failures, scales_in, new_exposure_gate,
}
use glitch_topstep.Prelude.{
  leb, ◌==◌, ==_iff, Option-cases, some, Bool-cases, is_empty, ℤ, ℕ, ◌+◌, ◌-◌, ◌≤◌, ◌≡◌, refl, ◌∙◌,
  ◌↔◌, inl, inr, Bool, true, false, ◌&&◌, List, [], ◌∷◌, ◌++◌, arith,
}

add_issue-nonempty : (i : Issue) (xs : List Issue) → is_empty (add_issue i xs) ≡ false
add_issue-nonempty i [] = ground arith
add_issue-nonempty i (x ∷ xs) = ground arith

set_from-nonempty :
    (set xs : List Issue) → is_empty set ≡ false → is_empty (set_from set xs) ≡ false
unfolding set_from
set_from-nonempty set [] h = h
set_from-nonempty set (i ∷ xs) h = set_from-nonempty (add_issue i set) xs (add_issue-nonempty i set)

set_from_empty : (xs : List Issue) → is_empty (set_from [] xs) ≡ is_empty xs
unfolding set_from
set_from_empty [] = refl
set_from_empty (i ∷ xs) = set_from-nonempty (add_issue i []) xs (add_issue-nonempty i [])

append_empty : {A : Type 0} (xs ys : List A) → is_empty (xs ++ ys) ≡ (is_empty xs && is_empty ys)
append_empty [] ys = refl
append_empty (x ∷ xs) ys = refl

gates_empty :
    (complete fresh current : Bool) (issues : List Issue)
    → complete ≡ is_empty issues
    → is_empty (
        reasons_of (
          record { id = state_complete; passed = complete; issues = issues }
          ∷ record { id = quote_stale; passed = fresh; issues = [] }
          ∷ record { id = reconciliation_current; passed = current; issues = [] }
          ∷ []))
      ≡ (complete && current)
gates_empty true fresh current issues h = ground arith
gates_empty false fresh current [] h = cc h
gates_empty false fresh current (i ∷ issues) h = refl

reasons_empty :
    (l : Limits) (s : VenueStatus) (now : ℤ)
    → is_empty (armed_gate_reasons l s now)
      ≡ ((evaluate_data_quality l s now).state_complete && is_reconciliation_current s)
unfolding armed_gate_reasons armed_safety_gates evaluate_data_quality
reasons_empty l s now =
    let q = evaluate_data_quality l s now in
    set_from_empty (reasons_of (armed_safety_gates l s q))
    ∙ gates_empty q.state_complete _ (is_reconciliation_current s) q.issues refl

reconciliation_current_iff :
    (s : VenueStatus)
    → (is_reconciliation_current s ≡ true) ↔ (
        ((at : ℤ) × (s.reconciliation.last_succeeded_at ≡ some at))
        × (s.reconciliation.generation ≡ s.generation))
unfolding is_reconciliation_current
reconciliation_current_iff s = elim (Option-cases s.reconciliation.last_succeeded_at) [
  | inl never ↦ rw never ((λ h. cc h), (λ h. cc h.0.1))
  | inr (at, e) ↦ rw e ((λ h. ((at, refl), (==_iff _ _).0 h)), (λ h. (==_iff _ _).1 h.1))
]

live_when_current :
    (mode : TradingMode) (l : Limits) (s : VenueStatus) (now : ℤ)
    → ((permits_live_orders (resolve_gateway_mode mode l s now).effective ≡ true) ↔ (
        (mode ≡ TradingMode.armed)
        × ((evaluate_data_quality l s now).state_complete ≡ true)
        × (is_reconciliation_current s ≡ true)))
      × ((permits_risk_reduction (resolve_gateway_mode mode l s now).effective ≡ true)
          ↔ (mode ≡ TradingMode.armed))
unfolding resolve_gateway_mode permits_live_orders permits_risk_reduction
live_when_current TradingMode.disabled l s now = ground arith
live_when_current TradingMode.shadow l s now = ground arith
live_when_current TradingMode.armed l s now = ground (arith, reasons_empty l s now)

-- Orders that open exposure are permitted exactly when the gateway is configured to be armed, its data
-- is complete, and a reconciliation has succeeded and is of this generation. What reduces risk is
-- permitted exactly when the gateway is configured to be armed, also where it falls short of the rest.
pub live_orders_iff :
    (mode : TradingMode) (l : Limits) (s : VenueStatus) (now : ℤ)
    → ((permits_live_orders (resolve_gateway_mode mode l s now).effective ≡ true) ↔ (
        (mode ≡ TradingMode.armed)
        × ((evaluate_data_quality l s now).state_complete ≡ true)
        × ((at : ℤ) × (s.reconciliation.last_succeeded_at ≡ some at))
        × (s.reconciliation.generation ≡ s.generation)))
      × ((permits_risk_reduction (resolve_gateway_mode mode l s now).effective ≡ true)
          ↔ (mode ≡ TradingMode.armed))
live_orders_iff mode l s now =
    let (live, reducing) = live_when_current mode l s now in
    let current = reconciliation_current_iff s in
    (
      (
        (λ h. let (a, c, n) = live.0 h in let (at, same) = current.0 n in (a, c, at, same)),
        (λ h. live.1 (h.0, h.1, current.1 (h.2, h.3))),
      ),
      reducing,
    )

check_exposure-scales :
    (side : Side) (s : AccountSnapshot) (c : RiskContext)
    → s.account_id ≡ c.expected_account_id
    → (s.instrument_open_contracts == 0) ≡ false
    → check_exposure side s c ≡ ok tt
    → scales_in side s ≡ true
unfolding check_exposure
check_exposure-scales side s c e held h =
    rw
      (
        e,
        scale_in_check-allowed
            (validate_scale_in side s.positions s.open_orders s.contract_id c.expected_account_id)
            (ground arith),
      )
      refl

scales-failure :
    (side : Side) (s : AccountSnapshot)
    → (s.instrument_open_contracts == 0) ≡ false
    → scales_in side s ≡ true
    → exposure_failure s ≡ []
scales-failure long s held h = rw (held, h) refl
scales-failure short s held h = rw (held, h) (ground arith)

check_exposure-failure :
    (side : Side) (s : AccountSnapshot) (c : RiskContext)
    → s.account_id ≡ c.expected_account_id
    → check_exposure side s c ≡ ok tt
    → exposure_failure s ≡ []
unfolding check_exposure
check_exposure-failure side s c e h = elim (Bool-cases (s.instrument_open_contracts == 0)) [
  | inl flat ↦ rw flat (ground arith)
  | inr held ↦ scales-failure side s held (check_exposure-scales side s c e held h)
]

room_left : (limit total n : ℕ) → 1 ≤ n → n + total ≤ limit → leb (limit - total) 0 ≡ false
room_left limit total n one fits = ground arith

-- An entry that the risk checks accept is one that the gate of new exposure supports on the same
-- snapshot, as long as the venue's authorization is not degraded, trading is not disabled, and no
-- mutation or entry of unknown fate blocks new exposure.
pub accepted_supported :
    (i : TradeIntent) (s : AccountSnapshot) (policy : Policy) (settings : RiskSettings)
    (c : RiskContext) (now : ℤ) (v : ValidatedEntry) (r : RecoveryStatus) (mode : TradingMode)
    → validate_entry_risk i s policy settings c now ≡ ok v
    → r.blocking_new_exposure ≡ false
    → is_disabled mode ≡ false
    → (new_exposure_gate s r mode
        (evaluate_data_quality settings.limits s.status now)
        policy.max_contracts
        false).passed
      ≡ true
unfolding exposure_failures
accepted_supported i s policy settings c now v r mode h unblocked enabled =
    let steps = validate-Steps i s policy settings c now v h in
    let safe = validate_entry_risk-IsSafe i s policy settings c now v h in
    let complete = check_quality_complete _ steps.quality_checked in
    let free =
      check_exposure-failure steps.side s c safe.identified.account steps.exposure_checked in
    let room =
      room_left policy.max_contracts s.total_open_contracts v.quantity safe.some_contracts
        safe.capacity in
    rw (enabled, complete, safe.identified.can_trade, free, room, unblocked) refl
