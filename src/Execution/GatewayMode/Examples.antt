-- ===== src/Execution/GatewayMode/Examples.antt =====
-- The gates for the entry of Risk/Engine/Examples.
use glitch_topstep.Execution.Admission.{TradingMode}
use glitch_topstep.Execution.Store.Recovery.{RecoveryStatus}
use glitch_topstep.Risk.Engine.Examples.{
  intent, quote, status, snapshot, policy, settings, context, entry, accepts,
}
use glitch_topstep.State.DataQuality.{evaluate_data_quality}
use glitch_topstep.Execution.GatewayMode.{
  degraded_armed, reconciliation_not_current, resolve_gateway_mode, permits_live_orders,
  permits_risk_reduction, new_exposure_gate,
}
use glitch_topstep.Execution.GatewayMode.Agreement.{live_orders_iff, accepted_supported}
use glitch_topstep.Prelude.{ℤ, pos, ◌-ℤ◌, max_ℤ, ◌≡◌, refl, ◌↔◌, true, false, some, [], ◌∷◌}

abbrev quiet : RecoveryStatus
quiet = record {
  blocking_ambiguity = false;
  entry_pending = false;
  blocking_new_exposure = false;
  unresolved = 0;
  ambiguities = 0;
}

-- No reconciliation has succeeded yet.
degraded_test :
    resolve_gateway_mode TradingMode.armed settings.limits (status (some quote)) (pos 10000)
    ≡ record {
      configured = TradingMode.armed;
      effective = degraded_armed;
      downgrade_reason = reconciliation_not_current ∷ [];
    }
unfolding resolve_gateway_mode ◌-ℤ◌ max_ℤ
degraded_test = refl

live_orders_iff_example :
    ((permits_live_orders
          (resolve_gateway_mode TradingMode.armed settings.limits
            (status (some quote))
            (pos 10000)).effective
        ≡ true)
      ↔ ((TradingMode.armed ≡ TradingMode.armed)
          × ((evaluate_data_quality settings.limits
                (status (some quote))
                (pos 10000)).state_complete
              ≡ true)
          × ((at : ℤ) × ((status (some quote)).reconciliation.last_succeeded_at ≡ some at))
          × ((status (some quote)).reconciliation.generation ≡ (status (some quote)).generation)))
    × ((permits_risk_reduction
            (resolve_gateway_mode TradingMode.armed settings.limits
              (status (some quote))
              (pos 10000)).effective
          ≡ true)
        ↔ (TradingMode.armed ≡ TradingMode.armed))
live_orders_iff_example =
    live_orders_iff TradingMode.armed settings.limits (status (some quote)) (pos 10000)

accepted_supported_example :
    (new_exposure_gate
      (snapshot (status (some quote)))
      quiet
      TradingMode.armed
      (evaluate_data_quality settings.limits (status (some quote)) (pos 10000))
      3
      false).passed
    ≡ true
accepted_supported_example =
    accepted_supported intent (snapshot (status (some quote))) policy settings context (pos 10000)
      entry quiet TradingMode.armed accepts refl refl
