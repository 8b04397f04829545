-- ===== src/Lib.antt =====
-- Verification of the glitch-topstep trading gateway: what stands between the agent that decides
-- trades and the venue that executes them.
--
-- Parts of the program, and the files that model them:
--   Service/RestGate       src/projectx/rest-concurrency.ts, RestConcurrencyGate: acquire, expire (the
--                          timer in acquire) and release; run is acquire, the work, release.
--   Service/RecoveryGate   src/service/recovery-pipeline-gate.ts, RecoveryPipelineGate: request is run,
--                          end_pass what loop does after a pass.
--   Service/Lifecycle      src/service/lifecycle-supervisor.ts: register, drain, rollback_after_failure
--                          over dispose_all, and run_shutdown_failure_recovery.
--   Service/TaskScheduler  src/service/task-scheduler.ts, TaskScheduler: enqueue, pump, select_next
--                          and settle (the then, catch and finally of dispatch).
--   Service/Priority       PRIORITY_ORDER and the selection loop that the two have in common.
--   Execution/Store        src/storage/sqlite-execution-store.ts: register_intent, prepare_mutation, the
--                          mark operations over transition_mutation, the entry latch, recovery_status.
--                          The service clears the latch by a call of its own; Store/Clearing lets such
--                          calls come between the operations at any point.
--   Execution/Admission    src/execution/intent-admission.ts: evaluate_intent_admission_early, over
--                          register_intent and recovery_status of the store.
--   Execution/GatewayMode  src/execution/gateway-mode.ts: resolve_gateway_mode and build_execution_gates.
--   Execution/Amendment    src/execution/amendment-safety.ts: validate_amendment and build_envelope.
--   Execution/Brackets     src/execution/brackets.ts: calculate_bracket_ticks.
--   Risk/Mll               src/risk/mll.ts: liquidation_floor and risk_budget.
--   Risk/Engine            src/risk/risk-engine.ts: validate_entry_risk, over the checks of Risk/Mll,
--                          Execution/Brackets, State/DataQuality and Ownership/ScaleIn.
--   Risk/Portfolio         src/risk/portfolio-risk.ts and src/risk/portfolio-selection.ts.
--   Execution/Reduction    src/domain/state-machines.ts and the protected reductions of the store: begin,
--                          advance and mark_protected_reductions_flat.
--   Domain/Transitions     src/domain/state-machines.ts: transition_error is assertTransition, over the
--                          graphs of intent admission, reconciliation and the outcome feed.
--   Ownership/Tranches     src/ownership/tranches.ts: build_tranches.
--   Ownership/Protection   src/ownership/protection.ts: the tags of protective orders, bind_protection over
--                          the orders of the venue, and sanitize_rearm_protection_prices.
--   Execution/BracketVerification
--                          src/execution/bracket-verification.ts: resolve_packet_protection_status.
--   Ownership/ScaleIn      src/ownership/scale-in.ts: validate_scale_in.
--   State/Quote            src/state/quote-state.ts: classify_quote_state and what an action needs.
--   State/DataQuality      src/state/data-quality.ts: evaluate_data_quality and its grace periods.
--   Domain/EntryReference  src/domain/entry-reference.ts: the prices that an entry is measured from.
--   Market/RateLimit       src/market/rate-aware-scheduler.ts, RateAwareScheduler: attempt is one round of
--                          acquire, acquire the loop of a lone caller.
--   Venue/Circuit          src/projectx/read-circuit-breaker.ts, ReadCircuitBreaker.
--   Venue/HubRecovery      src/projectx/hub-recovery-controller.ts, HubRecoveryController.
--   Venue/Retry            src/projectx/retry-policy.ts and post of src/projectx/client.ts: post_from is its
--                          loop, over the circuit breaker.
--   Prelude                tests, lists, integers and JavaScript numbers that the parts share.
-- The scheduler orders the REST work that passes the gate. An intent is registered in the store and
-- prepared there before an order leaves; the risk modules decide before that whether it may, and the
-- amendment checks whether a protective order may move afterwards.
--
-- State is passed explicitly. Asynchronous code is a sequence of steps: each step is the code that
-- runs between two suspensions, and theorems range over every sequence. What throws is an error
-- value. Identities, times and texts that the code only compares are natural numbers. Prices and
-- money are whole numbers of a small unit; the rounding of doubles is not modelled.
-- The pump's loop takes as many rounds as there are tasks queued, which is enough since each round
-- takes one. The decimal digits of a number are printed with one round more than the number, and a
-- round per digit. The rate limiter's acquire is on fuel; as many rounds as the window holds starts, and
-- one, are enough. A call of the venue makes as many rounds as it is allowed attempts. No other loop
-- has a bound of its own.
--
-- Not modelled: HTTP, SignalR, the file system and SQLite itself (a transaction is taken to be atomic
-- and a violated constraint to fail it), timers but as events, reports and logs. The coordinator that
-- calls these parts is not modelled either.
pub mod Prelude
pub mod Domain
pub mod Execution
pub mod Market
pub mod Ownership
pub mod Risk
pub mod Service
pub mod State
pub mod Venue
