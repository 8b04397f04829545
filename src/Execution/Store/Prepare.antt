-- ===== src/Execution/Store/Prepare.antt =====
-- prepareMutation of src/storage/sqlite-execution-store.ts. It runs in one transaction, so an error
-- leaves the store as it was.
use glitch_topstep.Execution.Store.Tables.{
  Operation, Request, Mutation, Store, Result, place_order, close_position, modify_order,
  no_mutation, prepared, operation_invalid, constraint_violated, entry_submission_pending, ok, err,
}
use glitch_topstep.Prelude.{
  ◌==◌, if◌then◌else◌, is_none, some_of, find, ℕ, Bool, true, false, ◌&&◌, ◌||◌, Option, none, some,
  List, [], ◌∷◌, ◌++◌,
}

unfoldable pub find_mutation : ℕ → List Mutation → Option Mutation
find_mutation i ms = find (λ m. m.intent_id == i) ms

unfoldable pub is_protected_entry : Request → Bool
is_protected_entry r = r.stop_loss_bracket || r.take_profit_bracket

abbrev pub is_place : Operation → Bool
is_place place_order = true
is_place _ = false

abbrev pub same_tag : Option ℕ → Option ℕ → Bool
same_tag (some a) (some b) = a == b
same_tag _ _ = false

-- The primary key, the foreign key and the unique tag of the outbox.
unfoldable pub violates : ℕ → Option ℕ → Store → Bool
violates i tag s =
    some_of (λ m. m.intent_id == i) s.outbox
    || (some_of (λ m. same_tag m.custom_tag tag) s.outbox
        || is_none (find (λ x. x.intent_id == i) s.intents))

unfoldable pub new_mutation : ℕ → Operation → Request → Option ℕ → ℕ → Mutation
new_mutation i op r tag at = record {
  intent_id = i;
  operation = op;
  state = prepared;
  custom_tag = tag;
  request = r;
  created_utc = at;
  submitting_utc = none;
  resolved_utc = none;
  provider_order_id = none;
  last_error = none;
}

-- The insertion, and the latch that a protected entry takes.
unfoldable pub insert_mutation : ℕ → Operation → Request → Option ℕ → ℕ → Store → Result Store
insert_mutation i op r tag at s =
    if violates i tag s
    then err constraint_violated
    else ok (record s {
      outbox = s.outbox ++ new_mutation i op r tag at ∷ [];
      entry_latch = if is_place op && is_protected_entry r then some i else s.entry_latch;
    })

unfoldable pub prepare_place : Option ℕ → ℕ → Request → Option ℕ → ℕ → Store → Result Store
prepare_place (some pending) i r tag at s = err (entry_submission_pending pending)
prepare_place none i r tag at s = insert_mutation i place_order r tag at s

unfoldable pub prepare_mutation : ℕ → Operation → Request → Option ℕ → ℕ → Store → Result Store
prepare_mutation i place_order r tag at s = prepare_place s.entry_latch i r tag at s
prepare_mutation i close_position r tag at s = insert_mutation i close_position r tag at s
prepare_mutation i modify_order r tag at s = insert_mutation i modify_order r tag at s
prepare_mutation i no_mutation r tag at s = err operation_invalid
