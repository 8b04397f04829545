-- ===== src/Execution/Store/Recovery.antt =====
-- recoveryStatus of src/storage/sqlite-execution-store.ts, less the time and the error of the last
-- recovery, which it copies; and the operations on the outbox as events.
use glitch_topstep.Execution.Store.Tables.{
  Operation, MutationState, Request, Mutation, Store, Result, prepared, submitting, ambiguous,
}
use glitch_topstep.Execution.Store.Prepare.{prepare_mutation}
use glitch_topstep.Execution.Store.Transitions.{
  from_sent, mark_submitting, mark_submitted, mark_confirmed_not_submitted, mark_rejected,
  mark_ambiguous, note_provider_order_id,
}
use glitch_topstep.Prelude.{ltb, is_some, length, keep, ℕ, Bool, true, false, ◌||◌, Option}

abbrev pub is_unresolved : MutationState → Bool
is_unresolved prepared = true
is_unresolved submitting = true
is_unresolved ambiguous = true
is_unresolved _ = false

pub record RecoveryStatus : Type 0 where
  pub blocking_ambiguity : Bool
  pub entry_pending : Bool
  pub blocking_new_exposure : Bool
  pub unresolved : ℕ
  pub ambiguities : ℕ

unfoldable pub recovery_status : Store → RecoveryStatus
recovery_status s =
    let unresolved = length (keep (λ (m : Mutation). is_unresolved m.state) s.outbox) in
    let ambiguities = length (keep (λ (m : Mutation). from_sent m.state) s.outbox) in
    record {
      blocking_ambiguity = ltb 0 ambiguities;
      entry_pending = is_some s.entry_latch;
      blocking_new_exposure =
          ltb 0 ambiguities || (is_some s.entry_latch || is_some s.flatten_block);
      unresolved = unresolved;
      ambiguities = ambiguities;
    }

-- The operations on a mutation, each as one event. The latch is also cleared by a call of its own,
-- clear_entry_latch, which Clearing adds to these.
pub data Op : Type 0 where
  prepare : ℕ → Operation → Request → Option ℕ → ℕ → Op
  to_submitting : ℕ → ℕ → Op
  note : ℕ → ℕ → Op
  to_submitted : ℕ → Option ℕ → ℕ → Op
  to_not_submitted : ℕ → ℕ → Op
  to_rejected : ℕ → ℕ → ℕ → Op
  to_ambiguous : ℕ → ℕ → Op

unfoldable pub apply : Op → Store → Result Store
apply (prepare i op r tag at) s = prepare_mutation i op r tag at s
apply (to_submitting i at) s = mark_submitting i at s
apply (note i order) s = note_provider_order_id i order s
apply (to_submitted i order at) s = mark_submitted i order at s
apply (to_not_submitted i at) s = mark_confirmed_not_submitted i at s
apply (to_rejected i error at) s = mark_rejected i error at s
apply (to_ambiguous i error) s = mark_ambiguous i error s
