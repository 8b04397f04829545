-- ===== src/Execution/Store/Transitions.antt =====
-- The transitions of a mutation in src/storage/sqlite-execution-store.ts: transitionMutation and the
-- operations that call it, and the release of the entry latch.
use glitch_topstep.Execution.Store.Tables.{
  MutationState, Mutation, Store, Result, prepared, submitting, submitted, confirmed_not_submitted,
  rejected, ambiguous, mutation_not_found, order_note_invalid, transition_invalid, ok, err,
}
use glitch_topstep.Execution.Store.Prepare.{find_mutation, same_tag}
use glitch_topstep.Prelude.{
  ◌==◌, if◌then◌else◌, or_else, ℕ, Bool, true, false, Option, none, some, List, [], ◌∷◌,
}

abbrev pub state_code : MutationState → ℕ
state_code prepared = 0
state_code submitting = 1
state_code submitted = 2
state_code confirmed_not_submitted = 3
state_code rejected = 4
state_code ambiguous = 5

abbrev pub same_state : MutationState → MutationState → Bool
same_state a b = state_code a == state_code b

-- `undefined` (`none`) keeps the column; `null` is `some none`.
pub record Values : Type 0 where
  pub submitting_utc : Option (Option ℕ)
  pub resolved_utc : Option (Option ℕ)
  pub provider_order_id : Option (Option ℕ)
  pub last_error : Option (Option ℕ)

unfoldable pub write_values : MutationState → Values → Mutation → Mutation
write_values next v m = record m {
  state = next;
  submitting_utc = or_else v.submitting_utc m.submitting_utc;
  resolved_utc = or_else v.resolved_utc m.resolved_utc;
  provider_order_id = or_else v.provider_order_id m.provider_order_id;
  last_error = or_else v.last_error m.last_error;
}

-- `UPDATE execution_outbox SET ... WHERE intent_id = ?`
unfoldable pub update : ℕ → (Mutation → Mutation) → List Mutation → List Mutation
update i f [] = []
update i f (m ∷ ms) = let rest = update i f ms in if m.intent_id == i then f m ∷ rest else m ∷ rest

-- `DELETE ... WHERE key = 'entry_submission_latch' AND value = ?`
unfoldable pub clear_latch : ℕ → Option ℕ → Option ℕ
clear_latch i none = none
clear_latch i (some j) = if j == i then none else some j

unfoldable pub transition_found :
    Mutation → (MutationState → Bool) → MutationState → Values → Bool → Store → Result Store
transition_found m allowed next v clears s =
    if same_state m.state next
    then ok s
    else if allowed m.state
    then ok (record s {
      outbox = update m.intent_id (write_values next v) s.outbox;
      entry_latch = if clears then clear_latch m.intent_id s.entry_latch else s.entry_latch;
    })
    else err (transition_invalid m.state next)

unfoldable pub transition_mutation :
    ℕ → (MutationState → Bool) → MutationState → Values → Bool → Store → Result Store
transition_mutation i allowed next v clears s = elim (find_mutation i s.outbox) [
  | none ↦ err mutation_not_found
  | some m ↦ transition_found m allowed next v clears s
]

abbrev pub from_prepared : MutationState → Bool
from_prepared prepared = true
from_prepared _ = false

abbrev pub from_submitting : MutationState → Bool
from_submitting submitting = true
from_submitting _ = false

abbrev pub from_sent : MutationState → Bool
from_sent submitting = true
from_sent ambiguous = true
from_sent _ = false

unfoldable pub mark_submitting : ℕ → ℕ → Store → Result Store
mark_submitting i at =
    transition_mutation i from_prepared submitting
      (record {
        submitting_utc = some (some at);
        resolved_utc = some none;
        provider_order_id = some none;
        last_error = some none;
      })
      false

unfoldable pub mark_submitted : ℕ → Option ℕ → ℕ → Store → Result Store
mark_submitted i order at =
    transition_mutation i from_sent submitted
      (record {
        submitting_utc = none;
        resolved_utc = some (some at);
        provider_order_id = some order;
        last_error = some none;
      })
      false

unfoldable pub mark_confirmed_not_submitted : ℕ → ℕ → Store → Result Store
mark_confirmed_not_submitted i at =
    transition_mutation i from_prepared confirmed_not_submitted
      (record {
        submitting_utc = none;
        resolved_utc = some (some at);
        provider_order_id = some none;
        last_error = some none;
      })
      true

unfoldable pub mark_rejected : ℕ → ℕ → ℕ → Store → Result Store
mark_rejected i error at =
    transition_mutation i from_submitting rejected
      (record {
        submitting_utc = none;
        resolved_utc = some (some at);
        provider_order_id = some none;
        last_error = some (some error);
      })
      true

unfoldable pub mark_ambiguous : ℕ → ℕ → Store → Result Store
mark_ambiguous i error =
    transition_mutation i from_sent ambiguous
      (record {
        submitting_utc = none;
        resolved_utc = some none;
        provider_order_id = none;
        last_error = some (some error);
      })
      false

unfoldable pub note_order : Mutation → ℕ → Store → Result Store
note_order m order s =
    if from_sent m.state
    then ok (record s {
      outbox = update m.intent_id (λ x. record x { provider_order_id = some order }) s.outbox;
    })
    else err order_note_invalid

unfoldable pub note_provider_order_id : ℕ → ℕ → Store → Result Store
note_provider_order_id i order s = elim (find_mutation i s.outbox) [
  | none ↦ err order_note_invalid
  | some m ↦ note_order m order s
]

unfoldable pub clear_entry_latch : ℕ → Store → Store × Bool
clear_entry_latch i s =
    (record s { entry_latch = clear_latch i s.entry_latch }, same_tag s.entry_latch (some i))
