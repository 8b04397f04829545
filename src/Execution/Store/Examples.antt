-- ===== src/Execution/Store/Examples.antt =====
-- The execution store at concrete inputs.
use glitch_topstep.Execution.Store.Lifecycle.{Edge, apply-Edge, run, run_settled}
use glitch_topstep.Execution.Store.Latch.{Inv, is_open_entry}
use glitch_topstep.Execution.Store.Clearing.{is_among, Reach, starts, clears, Reach-run}
use glitch_topstep.Execution.Store.OneEntry.{run-Inv, run_one_entry, unblocked, owned_latch}
use glitch_topstep.Execution.Store.Tables.{
  Request, Mutation, Intent, Store, place_order, submitting, submitted, ambiguous, rejected, hashed,
  ok,
}
use glitch_topstep.Execution.Store.Prepare.{
  find_mutation, is_protected_entry, violates, new_mutation, insert_mutation, prepare_place,
  prepare_mutation,
}
use glitch_topstep.Execution.Store.Transitions.{
  write_values, update, clear_latch, transition_found, transition_mutation, mark_submitting,
  mark_submitted, mark_rejected, clear_entry_latch,
}
use glitch_topstep.Execution.Store.Recovery.{
  recovery_status, Op, apply, prepare, to_submitting, note, to_submitted, to_rejected, to_ambiguous,
}
use glitch_topstep.Prelude.{ℕ, ◌+◌, ◌≡◌, refl, ◌≢◌, ◌⊎◌, true, false, none, some, List, [], ◌∷◌}

abbrev bracketed : Request
bracketed = record { stop_loss_bracket = true; take_profit_bracket = true }

abbrev intent : ℕ → Intent
intent i = record { intent_id = i; body_hash = hashed (100 + i) }

abbrev fresh : Store
fresh = record {
  intents = intent 1 ∷ intent 2 ∷ [];
  outbox = [];
  entry_latch = none;
  flatten_block = none;
}

fresh-Inv : Inv fresh
fresh-Inv = record { distinct = tt; exclusive = tt; owned = λ i e. cc }

-- An entry that is rejected, then a second that is submitted; a third is refused.
abbrev entries : List Op
entries =
    prepare 1 place_order bracketed (some 11) 1000
    ∷ to_submitting 1 1001
    ∷ to_rejected 1 77 1002
    ∷ prepare 2 place_order bracketed (some 12) 1003
    ∷ to_submitting 2 1004
    ∷ prepare 1 place_order bracketed (some 13) 1005
    ∷ to_submitted 2 (some 900) 1006
    ∷ []

abbrev final : Mutation
final = record {
  intent_id = 2;
  operation = place_order;
  state = submitted;
  custom_tag = some 12;
  request = bracketed;
  created_utc = 1003;
  submitting_utc = some 1004;
  resolved_utc = some 1006;
  provider_order_id = some 900;
  last_error = none;
}

abbrev refused : Mutation
refused = record {
  intent_id = 1;
  operation = place_order;
  state = rejected;
  custom_tag = some 11;
  request = bracketed;
  created_utc = 1000;
  submitting_utc = some 1001;
  resolved_utc = some 1002;
  provider_order_id = none;
  last_error = some 77;
}

entries-final : find_mutation 2 (run entries fresh).outbox ≡ some final
unfolding run apply prepare_mutation prepare_place insert_mutation violates new_mutation
    is_protected_entry mark_submitting mark_rejected mark_submitted transition_mutation
    transition_found find_mutation write_values update clear_latch
entries-final = refl

entries-refused : find_mutation 1 (run entries fresh).outbox ≡ some refused
unfolding run apply prepare_mutation prepare_place insert_mutation violates new_mutation
    is_protected_entry mark_submitting mark_rejected mark_submitted transition_mutation
    transition_found find_mutation write_values update clear_latch
entries-refused = refl

run-Inv_example : Inv (run entries fresh)
run-Inv_example = run-Inv entries fresh fresh-Inv

run_one_entry_example : ◌≡◌ {A = ℕ} 2 2
run_one_entry_example =
    run_one_entry entries fresh 2 2 final final fresh-Inv entries-final entries-final refl refl

run_settled_example :
    find_mutation 2
      (run (to_rejected 2 5 9 ∷ to_ambiguous 2 6 ∷ note 2 8 ∷ []) (run entries fresh)).outbox
    ≡ some final
run_settled_example =
    run_settled (to_rejected 2 5 9 ∷ to_ambiguous 2 6 ∷ note 2 8 ∷ []) 2 final (run entries fresh)
      entries-final refl

abbrev sent : Mutation
sent = record refused { state = submitting; resolved_utc = none; last_error = none }

abbrev sent_store : Store
sent_store = record fresh { outbox = sent ∷ []; entry_latch = some 1 }

abbrev refused_store : Store
refused_store = record fresh { outbox = refused ∷ []; entry_latch = none }

refuse_sent : apply (to_rejected 1 77 1002) sent_store ≡ ok refused_store
unfolding apply mark_rejected transition_mutation transition_found find_mutation write_values update
    clear_latch
refuse_sent = refl

apply-Edge_example :
    (m' : Mutation) × (find_mutation 1 refused_store.outbox ≡ some m') × Edge sent m'
apply-Edge_example =
    apply-Edge (to_rejected 1 77 1002) 1 sent sent_store refused_store
      (unfold find_mutation in refl) refuse_sent

-- The second entry is at the venue, and its latch is cleared from outside.
abbrev lived : Store
lived = record fresh { outbox = refused ∷ final ∷ []; entry_latch = none }

lived-Reach : Reach (2 ∷ []) lived
unfolding run apply prepare_mutation prepare_place insert_mutation violates new_mutation
    is_protected_entry mark_submitting mark_rejected mark_submitted transition_mutation
    transition_found find_mutation write_values update clear_latch clear_entry_latch
lived-Reach = clears (Reach-run entries fresh (starts refl refl)) 2

lived_unblocked : (recovery_status lived).blocking_new_exposure ≡ false
unfolding recovery_status
lived_unblocked = refl

lived-final : find_mutation 2 lived.outbox ≡ some final
unfolding find_mutation
lived-final = refl

unblocked_example :
    ((submitted ≢ submitting) × (submitted ≢ ambiguous))
    × (is_open_entry final ≡ true → is_among 2 (2 ∷ []) ≡ true)
unblocked_example = unblocked (2 ∷ []) lived 2 final lived-Reach lived_unblocked lived-final

-- The same entry before the call.
abbrev latched : Store
latched = record fresh { outbox = refused ∷ final ∷ []; entry_latch = some 2 }

latched-Reach : Reach [] latched
unfolding run apply prepare_mutation prepare_place insert_mutation violates new_mutation
    is_protected_entry mark_submitting mark_rejected mark_submitted transition_mutation
    transition_found find_mutation write_values update clear_latch
latched-Reach = Reach-run entries fresh (starts refl refl)

owned_latch_example :
    ((i : ℕ)
      → latched.entry_latch ≡ some i
      → (m : Mutation) × (find_mutation i latched.outbox ≡ some m) × (is_open_entry m ≡ true))
    × ((i : ℕ) (m : Mutation)
        → find_mutation i latched.outbox ≡ some m
        → is_open_entry m ≡ true
        → (latched.entry_latch ≡ some i) ⊎ (is_among i [] ≡ true))
owned_latch_example = owned_latch [] latched latched-Reach
