-- ===== src/Execution/Admission/Examples.antt =====
-- An intent that arrives, and arrives again.
use glitch_topstep.Execution.Store.Tables.{
  Mutation, Store, place_order, submitting, submitted, ambiguous, legacy,
}
use glitch_topstep.Execution.Store.Prepare.{
  find_mutation, is_protected_entry, violates, new_mutation, insert_mutation, prepare_place,
  prepare_mutation,
}
use glitch_topstep.Execution.Store.Latch.{is_open_entry}
use glitch_topstep.Execution.Store.Transitions.{
  write_values, update, clear_latch, transition_found, transition_mutation, mark_submitting,
  mark_submitted, clear_entry_latch,
}
use glitch_topstep.Execution.Store.Recovery.{Op, apply, prepare, to_submitting, to_submitted}
use glitch_topstep.Execution.Store.Lifecycle.{run}
use glitch_topstep.Execution.Store.Clearing.{is_among, Reach, starts, clears, Reach-run}
use glitch_topstep.Execution.Store.Registering.{find_intent, compare_hash}
use glitch_topstep.Execution.Admission.{
  WireIntent, AdmissionDeps, AdmissionState, armed, reject, new_exposure_paused_by_operator,
  handoff, handoff_exit, proceed, evaluate_intent_admission_early,
}
use glitch_topstep.Execution.Admission.Once.{is_known, acted_times, acted_times-bound}
use glitch_topstep.Execution.Admission.Proceeding.{Passes, proceed-Passes, handoff_unblocked}
use glitch_topstep.Risk.Engine.{TradeAction, enter_long, exit}
use glitch_topstep.Prelude.{
  ◌==◌, if◌then◌else◌, pos, ℕ, ◌≤◌, ◌≢◌, ◌≡◌, refl, Bool, true, false, Option, none, some, List, [],
  ◌∷◌,
}

abbrev wire : TradeAction → WireIntent
wire action = record {
  row = record { intent_id = 3; body_hash = legacy };
  hash = 900;
  action = action;
  snapshot_hash = 42;
  created_utc = pos 1000;
}

abbrev deps : Bool → AdmissionDeps
deps paused = record {
  resolve_issued_packet = λ h. if h == 42 then some 7 else none;
  current_mode = armed;
  control_paused = paused;
  ledger_is_durable = true;
  received_utc = pos 1200;
}

abbrev empty : AdmissionState
empty = record {
  store = record { intents = []; outbox = []; entry_latch = none; flatten_block = none };
  facts = [];
}

-- An entry was submitted before, and its latch was cleared from outside.
abbrev submitted_entry : Mutation
submitted_entry = record {
  intent_id = 1;
  operation = place_order;
  state = submitted;
  custom_tag = some 11;
  request = record { stop_loss_bracket = true; take_profit_bracket = false };
  created_utc = 100;
  submitting_utc = some 101;
  resolved_utc = some 102;
  provider_order_id = some 900;
  last_error = none;
}

abbrev before_entry : Store
before_entry = record {
  intents = record { intent_id = 1; body_hash = legacy } ∷ [];
  outbox = [];
  entry_latch = none;
  flatten_block = none;
}

abbrev lived : AdmissionState
lived = record { store = record before_entry { outbox = submitted_entry ∷ [] }; facts = [] }

abbrev submission : List Op
submission =
    prepare 1 place_order submitted_entry.request (some 11) 100
    ∷ to_submitting 1 101
    ∷ to_submitted 1 (some 900) 102
    ∷ []

lived-Reach : Reach (1 ∷ []) lived.store
unfolding run apply prepare_mutation prepare_place insert_mutation violates new_mutation
    is_protected_entry mark_submitting mark_submitted transition_mutation transition_found
    find_mutation write_values update clear_latch clear_entry_latch
lived-Reach = clears (Reach-run submission before_entry (starts refl refl)) 1

lived_proceeds :
    (evaluate_intent_admission_early (some (wire enter_long)) (deps false) lived).1 ≡ proceed 7
unfolding evaluate_intent_admission_early find_intent
lived_proceeds = refl

entry_proceeds :
    (evaluate_intent_admission_early (some (wire enter_long)) (deps false) empty).1 ≡ proceed 7
unfolding evaluate_intent_admission_early find_intent
entry_proceeds = refl

paused_test :
    (evaluate_intent_admission_early (some (wire enter_long)) (deps true) empty).1
    ≡ reject new_exposure_paused_by_operator
unfolding evaluate_intent_admission_early find_intent
paused_test = refl

unknown : find_intent 3 empty.store.intents ≡ none
unfolding find_intent
unknown = refl

proceed-Passes_example :
    (find_intent 3 lived.store.intents ≡ none)
    × Passes (wire enter_long) (deps false) lived.store 7
    × ((j : ℕ) (m : Mutation)
        → find_mutation j lived.store.outbox ≡ some m
        → ((m.state ≢ submitting) × (m.state ≢ ambiguous))
          × (is_open_entry m ≡ true → is_among j (1 ∷ []) ≡ true))
proceed-Passes_example =
    proceed-Passes (wire enter_long) (deps false) lived 7 (1 ∷ []) lived-Reach lived_proceeds

handoff_unblocked_example :
    (evaluate_intent_admission_early (some (wire exit)) (deps true) empty).1
    ≡ handoff 7 handoff_exit
handoff_unblocked_example =
    handoff_unblocked (wire exit) (deps true) empty 7 handoff_exit unknown refl refl refl

-- The intent, the intent again, and another body under its id.
abbrev arrivals : List (Option WireIntent × AdmissionDeps)
arrivals =
    (some (wire enter_long), deps false)
    ∷ (some (wire enter_long), deps false)
    ∷ (some (record (wire exit) { hash = 901 }), deps false)
    ∷ []

once_test : acted_times 3 empty arrivals ≡ 1
unfolding acted_times find_intent compare_hash
once_test = refl

acted_times-bound_example :
    (acted_times 3 empty arrivals ≤ 1)
    × (is_known 3 empty.store ≡ true → acted_times 3 empty arrivals ≡ 0)
acted_times-bound_example = acted_times-bound 3 arrivals empty
