-- ===== src/Execution/Admission.antt =====
-- src/execution/intent-admission.ts: what happens to an intent before its risk is checked. The body is
-- given as what the parser made of it, an intent or nothing. The store is that of Execution/Store, and
-- what the other parts answer is a record of answers. The details of receipts are left out, and so is
-- the hook that ends the process in a test of crashes.
pub mod Once
pub mod Proceeding
mod Examples
use glitch_topstep.Execution.Store.Tables.{
  Intent, Store, Registration, claimed, duplicate, conflict,
}
use glitch_topstep.Execution.Store.Registering.{register_intent}
use glitch_topstep.Execution.Store.Recovery.{RecoveryStatus, recovery_status}
use glitch_topstep.Risk.Engine.{
  TradeAction, enter_long, enter_short, hold, move_stop, move_tp, exit, nothing,
}
use glitch_topstep.Prelude.{
  ◌>>=◌, ltb, leb, ◌==◌, if◌then◌else◌, ltb→lt, leb→le, ==_iff, Bool-cases, and_left, and_right,
  Option-cases, is_some, is_none, or_else, length, is_empty, length-append, some_of, some_inj,
  every, keep, find, length-keep-le, All, All-map, All-keep, All-Mem, if-All, ℤ, pos, negsuc,
  pos_part, neg_part, sub_ℕ, ◌+ℤ◌, ◌-ℤ◌, ◌*ℤ◌, ◌≤ℤ◌, ◌<ℤ◌, ltb_ℤ, leb_ℤ, eqb_ℤ, max_ℤ, min_ℤ,
  +ℤ_parts, -ℤ_parts, eq_of_parts, int_laws, Number, nan, neg_infinity, pos_infinity, finite,
  is_finite, num_lt, num_eq, num_le, is_positive, ℕ, zero, suc, ◌+◌, ◌-◌, ◌*◌, ◌/◌, ◌%◌, ◌≤◌, ◌<◌,
  min, max, ◌≡◌, refl, sym, ap, ◌∙◌, ◌≢◌, ◌↔◌, ◌⊎◌, inl, inr, Bool, true, false, not, ◌&&◌, ◌||◌,
  Option, none, some, List, [], ◌∷◌, ◌++◌, map, take, take_all, arith, ℕ_discrete,
}

pub data TradingMode : Type 0 where
  disabled shadow armed : TradingMode

-- An intent as it arrives: the row that it would have, the hash of its body, and what is read of it.
pub record WireIntent : Type 0 where
  pub row : Intent
  pub hash : ℕ
  pub action : TradeAction
  pub snapshot_hash : ℕ
  pub created_utc : ℤ

-- What the coordinator's other parts answer.
pub record AdmissionDeps : Type 0 where
  pub resolve_issued_packet : ℕ → Option ℕ
  pub current_mode : TradingMode
  pub control_paused : Bool
  pub ledger_is_durable : Bool
  pub received_utc : ℤ

pub record AdmissionFact : Type 0 where
  pub intent_id : ℕ
  pub action : TradeAction
  pub decision_latency_ms : ℤ

pub record AdmissionState : Type 0 where
  pub store : Store
  pub facts : List AdmissionFact

pub data AdmissionCode : Type 0 where
  intent_schema_invalid intent_body_conflict : AdmissionCode
  intent_already_processing_or_recovery_required : AdmissionCode
  decision_packet_unknown_or_expired trading_disabled_by_operator : AdmissionCode
  no_execution_action action_not_implemented new_exposure_paused_by_operator : AdmissionCode
  execution_evidence_persistence_degraded execution_recovery_required : AdmissionCode
  entry_submission_pending : AdmissionCode

pub data HandoffAction : Type 0 where
  handoff_exit handoff_move_stop handoff_move_tp : HandoffAction

pub data EarlyResult : Type 0 where
  reject ignore ambiguous_receipt : AdmissionCode → EarlyResult
  handoff : ℕ → HandoffAction → EarlyResult
  proceed : ℕ → EarlyResult

abbrev pub is_passive : TradeAction → Bool
is_passive nothing = true
is_passive hold = true
is_passive _ = false

abbrev pub is_disabled : TradingMode → Bool
is_disabled disabled = true
is_disabled _ = false

-- The gates of an entry.
abbrev pub entry_gates : ℕ → AdmissionDeps → RecoveryStatus → EarlyResult
entry_gates packet d r =
    if d.control_paused
    then reject new_exposure_paused_by_operator
    else if not d.ledger_is_durable
    then reject execution_evidence_persistence_degraded
    else if r.blocking_new_exposure
    then reject
        (if r.blocking_ambiguity then execution_recovery_required else entry_submission_pending)
    else proceed packet

abbrev pub action_gates : TradeAction → ℕ → AdmissionDeps → RecoveryStatus → EarlyResult
action_gates exit packet d r = handoff packet handoff_exit
action_gates move_stop packet d r = handoff packet handoff_move_stop
action_gates move_tp packet d r = handoff packet handoff_move_tp
action_gates enter_long packet d r = entry_gates packet d r
action_gates enter_short packet d r = entry_gates packet d r
action_gates _ packet d r = reject action_not_implemented

abbrev pub packet_gates : TradeAction → Option ℕ → AdmissionDeps → RecoveryStatus → EarlyResult
packet_gates action none d r = reject decision_packet_unknown_or_expired
packet_gates action (some packet) d r = action_gates action packet d r

abbrev pub issued_packet : WireIntent → AdmissionDeps → Option ℕ
issued_packet i d = if is_passive i.action then none else d.resolve_issued_packet i.snapshot_hash

unfoldable pub gates : WireIntent → AdmissionDeps → Store → EarlyResult
unfolding recovery_status
gates i d s =
    let packet = issued_packet i d in
    if is_none packet && not (is_passive i.action)
    then reject decision_packet_unknown_or_expired
    else if is_disabled d.current_mode
    then reject trading_disabled_by_operator
    else if is_passive i.action
    then ignore no_execution_action
    else packet_gates i.action packet d (recovery_status s)

abbrev pub admission_fact : WireIntent → AdmissionDeps → AdmissionFact
admission_fact i d = record {
  intent_id = i.row.intent_id;
  action = i.action;
  decision_latency_ms = max_ℤ (pos 0) (d.received_utc -ℤ i.created_utc);
}

unfoldable pub after_registration :
    WireIntent
    → AdmissionDeps
    → AdmissionState
    → Store × Registration
    → AdmissionState × EarlyResult
unfolding gates
after_registration i d s (store, conflict) =
    (record s { store = store }, reject intent_body_conflict)
after_registration i d s (store, duplicate) =
    (record s { store = store }, ambiguous_receipt intent_already_processing_or_recovery_required)
after_registration i d s (store, claimed) =
    (record s { store = store; facts = s.facts ++ admission_fact i d ∷ [] }, gates i d store)

unfoldable pub evaluate_intent_admission_early :
    Option WireIntent → AdmissionDeps → AdmissionState → AdmissionState × EarlyResult
unfolding register_intent after_registration
evaluate_intent_admission_early none d s = (s, reject intent_schema_invalid)
evaluate_intent_admission_early (some i) d s =
    after_registration i d s (register_intent i.row i.hash s.store)
