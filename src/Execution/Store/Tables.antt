-- ===== src/Execution/Store/Tables.antt =====
-- The tables of SqliteExecutionStore (src/storage/sqlite-execution-store.ts, with the states of
-- src/domain/execution-state.ts): intents, the outbox of mutations, and the entries of runtime_meta
-- that the operations read. A table is the list of its rows; ids, tags, times, hashes and error
-- texts, which the store only compares and copies, are numbers.
use glitch_topstep.Prelude.{ℕ, Bool, Option, List}

pub data Operation : Type 0 where
  place_order close_position modify_order no_mutation : Operation

pub data MutationState : Type 0 where
  prepared submitting submitted confirmed_not_submitted rejected ambiguous : MutationState

-- The brackets that the request of an order defines.
pub record Request : Type 0 where
  pub stop_loss_bracket : Bool
  pub take_profit_bracket : Bool

pub record Mutation : Type 0 where
  pub intent_id : ℕ
  pub operation : Operation
  pub state : MutationState
  pub custom_tag : Option ℕ
  pub request : Request
  pub created_utc : ℕ
  pub submitting_utc : Option ℕ
  pub resolved_utc : Option ℕ
  pub provider_order_id : Option ℕ
  pub last_error : Option ℕ

-- The hash of a row: absent in rows of the first schema (`""` or `legacy:`).
pub data BodyHash : Type 0 where
  legacy : BodyHash
  hashed : ℕ → BodyHash

pub record Intent : Type 0 where
  pub intent_id : ℕ
  pub body_hash : BodyHash

pub record Store : Type 0 where
  pub intents : List Intent
  pub outbox : List Mutation
  pub entry_latch : Option ℕ
  pub flatten_block : Option ℕ

pub data Error : Type 0 where
  operation_invalid constraint_violated : Error
  entry_submission_pending : ℕ → Error
  mutation_not_found order_note_invalid : Error
  transition_invalid : MutationState → MutationState → Error

pub data Result {ℓ} (A : Type ℓ) : Type ℓ where
  ok : A → Result A
  err : Error → Result A

pub data Registration : Type 0 where
  claimed duplicate conflict : Registration
