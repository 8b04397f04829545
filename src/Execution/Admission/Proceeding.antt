-- ===== src/Execution/Admission/Proceeding.antt =====
-- What lets an entry proceed, and what does not hold up an exit.
use glitch_topstep.Execution.Store.Tables.{Store, Mutation, submitting, ambiguous, hashed}
use glitch_topstep.Execution.Store.Prepare.{find_mutation}
use glitch_topstep.Execution.Store.Latch.{is_open_entry}
use glitch_topstep.Execution.Store.Clearing.{is_among, Reach}
use glitch_topstep.Execution.Store.OneEntry.{unblocked}
use glitch_topstep.Execution.Store.Registering.{find_intent}
use glitch_topstep.Execution.Store.Recovery.{recovery_status}
use glitch_topstep.Execution.Store.Idempotence.{register_new}
use glitch_topstep.Risk.Engine.{TradeAction, enter_long, enter_short, exit, move_stop, move_tp}
use glitch_topstep.Execution.Admission.{
  TradingMode, WireIntent, AdmissionDeps, AdmissionState, EarlyResult, handoff, handoff_exit,
  handoff_move_stop, handoff_move_tp, HandoffAction, proceed, is_disabled, gates,
  after_registration, evaluate_intent_admission_early,
}
use glitch_topstep.Execution.Admission.Once.{
  is_acted, register-cases, evaluate-registered, compare_hash-unclaimed,
}
use glitch_topstep.Prelude.{
  ℕ, ◌≢◌, List, ◌≡◌, sym, ap, ◌∙◌, ◌⊎◌, inl, inr, true, false, Option, none, some, [], ◌∷◌, ◌++◌,
  arith,
}

-- An entry that no gate holds up.
pub record Passes (i : WireIntent) (d : AdmissionDeps) (s : Store) (packet : ℕ) : Type 0 where
  pub is_entry : (i.action ≡ enter_long) ⊎ (i.action ≡ enter_short)
  pub issued : d.resolve_issued_packet i.snapshot_hash ≡ some packet
  pub enabled : d.current_mode ≢ TradingMode.disabled
  pub unpaused : d.control_paused ≡ false
  pub durable : d.ledger_is_durable ≡ true
  pub unblocked : (recovery_status s).blocking_new_exposure ≡ false
  pub no_flatten : s.flatten_block ≡ none

gates-Passes :
    (i : WireIntent) (d : AdmissionDeps) (s : Store) (packet : ℕ)
    → gates i d s ≡ proceed packet
    → Passes i d s packet
unfolding gates recovery_status
gates-Passes i d s packet h = record {
  is_entry = ground arith;
  issued = ground arith;
  enabled = λ e. ground (arith, e);
  unpaused = ground arith;
  durable = ground arith;
  unblocked = ground arith;
  no_flatten = ground arith;
}

-- The store with the row of a new intent.
abbrev with_intent : WireIntent → Store → Store
with_intent i s = record s {
  intents = s.intents ++ record i.row { body_hash = hashed i.hash } ∷ [];
}

-- An acted intent was unknown, and went through the gates of the store that it was added to.
acted-gates :
    (i : WireIntent) (d : AdmissionDeps) (s : AdmissionState)
    → is_acted (evaluate_intent_admission_early (some i) d s).1 ≡ true
    → (find_intent i.row.intent_id s.store.intents ≡ none)
      × ((evaluate_intent_admission_early (some i) d s).1 ≡ gates i d (with_intent i s.store))
unfolding after_registration
acted-gates i d s h = elim (register-cases i.row i.hash s.store) [
  | inl (e, r) ↦ (e, ap (λ (x : AdmissionState × EarlyResult). x.1) (evaluate-registered i d s _ r))
  | inr (row, e, r) ↦ cc (
      sym h
      ∙ ap (λ (x : AdmissionState × EarlyResult). is_acted x.1) (evaluate-registered i d s _ r)
      ∙ compare_hash-unclaimed i d s row.body_hash)
]

-- In a store that operations on mutations, and calls from outside that clear the latch, have led to
-- from one without mutations: an entry proceeds to the risk checks only when its intent was not known,
-- the packet that it was decided on was issued here, trading is not disabled and not paused, the ledger
-- is durable and no flatten holds new exposure back. No mutation is then on its way with its fate
-- unknown, and no protected entry may be at the venue but those whose latch was so cleared.
pub proceed-Passes :
    (i : WireIntent) (d : AdmissionDeps) (s : AdmissionState) (packet : ℕ) (seen : List ℕ)
    → Reach seen s.store
    → (evaluate_intent_admission_early (some i) d s).1 ≡ proceed packet
    → (find_intent i.row.intent_id s.store.intents ≡ none)
      × Passes i d s.store packet
      × ((j : ℕ) (m : Mutation)
          → find_mutation j s.store.outbox ≡ some m
          → ((m.state ≢ submitting) × (m.state ≢ ambiguous))
            × (is_open_entry m ≡ true → is_among j seen ≡ true))
unfolding recovery_status
proceed-Passes i d s packet seen r h =
    let (unknown, gated) = acted-gates i d s (ap is_acted h) in
    let passes = gates-Passes i d _ packet (sym gated ∙ h) in
    (
      unknown,
      record {
        is_entry = passes.is_entry;
        issued = passes.issued;
        enabled = passes.enabled;
        unpaused = passes.unpaused;
        durable = passes.durable;
        unblocked = passes.unblocked;
        no_flatten = passes.no_flatten;
      },
      λ j m found. unblocked seen s.store j m r passes.unblocked found,
    )

-- The actions that reduce a position or move its protection.
abbrev pub hands_off : TradeAction → Option HandoffAction
hands_off exit = some handoff_exit
hands_off move_stop = some handoff_move_stop
hands_off move_tp = some handoff_move_tp
hands_off _ = none

gates-handoff :
    (i : WireIntent) (d : AdmissionDeps) (s : Store) (packet : ℕ) (a : HandoffAction)
    → hands_off i.action ≡ some a
    → d.resolve_issued_packet i.snapshot_hash ≡ some packet
    → is_disabled d.current_mode ≡ false
    → gates i d s ≡ handoff packet a
unfolding gates
gates-handoff i d s packet a h issued enabled = ground arith

-- A new intent to exit or to move a protective order is handed on whenever trading is not disabled and
-- its packet was issued here: a pause, a ledger that fails and a mutation of unknown fate do not hold
-- it up, since they are never looked at.
pub handoff_unblocked :
    (i : WireIntent) (d : AdmissionDeps) (s : AdmissionState) (packet : ℕ) (a : HandoffAction)
    → find_intent i.row.intent_id s.store.intents ≡ none
    → hands_off i.action ≡ some a
    → d.resolve_issued_packet i.snapshot_hash ≡ some packet
    → is_disabled d.current_mode ≡ false
    → (evaluate_intent_admission_early (some i) d s).1 ≡ handoff packet a
unfolding after_registration
handoff_unblocked i d s packet a unknown h issued enabled =
    ap (λ (x : AdmissionState × EarlyResult). x.1)
      (evaluate-registered i d s _ (register_new i.row i.hash s.store unknown))
    ∙ gates-handoff i d (with_intent i s.store) packet a h issued enabled
