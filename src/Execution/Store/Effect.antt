-- ===== src/Execution/Store/Effect.antt =====
-- What an operation of the execution store can do to it.
use mathlib.Core.Path.{subst}
use glitch_topstep.Execution.Store.Tables.{
  Operation, MutationState, Request, Mutation, Store, Result, place_order, close_position,
  modify_order, no_mutation, prepared, submitting, submitted, confirmed_not_submitted, rejected,
  ambiguous, constraint_violated, mutation_not_found, order_note_invalid, transition_invalid, ok,
  err,
}
use glitch_topstep.Execution.Store.Prepare.{
  find_mutation, is_protected_entry, is_place, violates, new_mutation, insert_mutation,
  prepare_place, prepare_mutation,
}
use glitch_topstep.Execution.Store.Transitions.{
  same_state, Values, write_values, update, clear_latch, transition_found, transition_mutation,
  from_prepared, from_submitting, from_sent, mark_submitting, mark_submitted,
  mark_confirmed_not_submitted, mark_rejected, mark_ambiguous, note_order, note_provider_order_id,
}
use glitch_topstep.Execution.Store.Recovery.{
  Op, apply, prepare, to_submitting, note, to_submitted, to_not_submitted, to_rejected,
  to_ambiguous,
}
use glitch_topstep.Prelude.{
  if◌then◌else◌, Bool-cases, Option-cases, ℕ, ◌≡◌, refl, sym, ap, ◌∙◌, inl, inr, Bool, true, false,
  ◌&&◌, Option, none, some, List, [], ◌∷◌, ◌++◌, arith,
}

-- The life of a mutation: prepared, then on its way or known never to have left, then resolved. A
-- mutation whose fate is unknown can only turn out to have been submitted.
abbrev pub may_follow : MutationState → MutationState → Bool
may_follow prepared submitting = true
may_follow prepared confirmed_not_submitted = true
may_follow submitting submitted = true
may_follow submitting rejected = true
may_follow submitting ambiguous = true
may_follow ambiguous submitted = true
may_follow _ _ = false

-- The states in which an entry is known not to have reached the venue.
abbrev pub is_released : MutationState → Bool
is_released confirmed_not_submitted = true
is_released rejected = true
is_released _ = false

pub data Effect (s s' : Store) : Type 0 where
  unchanged : s' ≡ s → Effect s s'
  inserted :
      (i : ℕ) (op : Operation) (r : Request) (tag : Option ℕ) (at : ℕ)
      → violates i tag s ≡ false
      → (is_place op ≡ true → s.entry_latch ≡ none)
      → s' ≡ record s {
        outbox = s.outbox ++ new_mutation i op r tag at ∷ [];
        entry_latch = if is_place op && is_protected_entry r then some i else s.entry_latch;
      }
      → Effect s s'
  moved :
      (m : Mutation) (next : MutationState) (v : Values)
      → find_mutation m.intent_id s.outbox ≡ some m
      → may_follow m.state next ≡ true
      → s' ≡ record s {
        outbox = update m.intent_id (write_values next v) s.outbox;
        entry_latch =
            if is_released next then clear_latch m.intent_id s.entry_latch else s.entry_latch;
      }
      → Effect s s'
  noted :
      (m : Mutation) (order : ℕ)
      → find_mutation m.intent_id s.outbox ≡ some m
      → from_sent m.state ≡ true
      → s' ≡ record s {
        outbox = update m.intent_id (λ x. record x { provider_order_id = some order }) s.outbox;
      }
      → Effect s s'

ok_inj : {a b : Store} → ok a ≡ ok b → a ≡ b
ok_inj {a} h = ap (λ (r : Result Store). elim r [ ok x ↦ x | err _ ↦ a ]) h

pub find_mutation-id :
    (i : ℕ) (ms : List Mutation) (m : Mutation) → find_mutation i ms ≡ some m → m.intent_id ≡ i
unfolding find_mutation
find_mutation-id i [] m e = cc
find_mutation-id i (x ∷ ms) m e = ground (arith, find_mutation-id i ms m)

pub find_mutation_self :
    (i : ℕ) (ms : List Mutation) (m : Mutation)
    → find_mutation i ms ≡ some m
    → find_mutation m.intent_id ms ≡ some m
find_mutation_self i ms m e =
    subst (λ j. find_mutation j ms ≡ some m) (sym (find_mutation-id i ms m e)) e

module _ (i : ℕ) (op : Operation) (r : Request) (tag : Option ℕ) (at : ℕ) (s : Store) where
  insert_bad : violates i tag s ≡ true → insert_mutation i op r tag at s ≡ err constraint_violated
  unfolding insert_mutation
  insert_bad h = rw (h, insert_mutation) refl

  insert_good :
      violates i tag s ≡ false
      → insert_mutation i op r tag at s
        ≡ ok (record s {
          outbox = s.outbox ++ new_mutation i op r tag at ∷ [];
          entry_latch = if is_place op && is_protected_entry r then some i else s.entry_latch;
        })
  unfolding insert_mutation
  insert_good h = rw (h, insert_mutation) refl

  insert-Effect :
      (s' : Store)
      → (is_place op ≡ true → s.entry_latch ≡ none)
      → insert_mutation i op r tag at s ≡ ok s'
      → Effect s s'
  insert-Effect s' free e = elim (Bool-cases (violates i tag s)) [
    | inl bad ↦ cc (insert_bad bad)
    | inr good ↦ inserted i op r tag at good free (ok_inj (sym e ∙ insert_good good))
  ]

prepare-Effect :
    (i : ℕ) (op : Operation) (r : Request) (tag : Option ℕ) (at : ℕ) (s s' : Store)
    → prepare_mutation i op r tag at s ≡ ok s'
    → Effect s s'
unfolding prepare_mutation prepare_place
prepare-Effect i place_order r tag at s s' e = elim (Option-cases s.entry_latch) [
  | inl free ↦
      insert-Effect i place_order r tag at s s' (λ _. free)
        (ap (λ l. prepare_place l i r tag at s) (sym free) ∙ e)
  | inr (pending, latched) ↦ cc (sym e ∙ ap (λ l. prepare_place l i r tag at s) latched)
]
prepare-Effect i close_position r tag at s s' e =
    insert-Effect i close_position r tag at s s' (λ p. cc) e
prepare-Effect i modify_order r tag at s s' e =
    insert-Effect i modify_order r tag at s s' (λ p. cc) e
prepare-Effect i no_mutation r tag at s s' e = cc

transition_found-Effect :
    (m : Mutation) (allowed : MutationState → Bool) (next : MutationState) (v : Values)
    (s s' : Store)
    → find_mutation m.intent_id s.outbox ≡ some m
    → (allowed m.state ≡ true → same_state m.state next ≡ false → may_follow m.state next ≡ true)
    → transition_found m allowed next v (is_released next) s ≡ ok s'
    → Effect s s'
unfolding transition_found
transition_found-Effect m allowed next v s s' found table e =
    elim (Bool-cases (same_state m.state next)) [
      | inl same ↦ unchanged (ok_inj (sym e ∙ rw (same, transition_found) refl))
      | inr differs ↦ elim (Bool-cases (allowed m.state)) [
        | inl may ↦
            moved m next v found (table may differs)
              (ok_inj (sym e ∙ rw (differs, may, transition_found) refl))
        | inr may_not ↦ cc (found_bad differs may_not)
      ]
    ]
  where
    found_bad :
        same_state m.state next ≡ false
        → allowed m.state ≡ false
        → transition_found m allowed next v (is_released next) s
          ≡ err (transition_invalid m.state next)
    found_bad d a = rw (d, a, transition_found) refl

transition-Effect :
    (i : ℕ) (allowed : MutationState → Bool) (next : MutationState) (v : Values) (s s' : Store)
    → ((from : MutationState)
        → allowed from ≡ true
        → same_state from next ≡ false
        → may_follow from next ≡ true)
    → transition_mutation i allowed next v (is_released next) s ≡ ok s'
    → Effect s s'
unfolding transition_mutation
transition-Effect i allowed next v s s' table e = elim (Option-cases (find_mutation i s.outbox)) [
  | inl missing ↦ cc (missing_err missing)
  | inr (m, found) ↦
      transition_found-Effect m allowed next v s s' (find_mutation_self i s.outbox m found)
        (table m.state) (rw (found, transition_mutation) at e)
]
  where
    missing_err :
        find_mutation i s.outbox ≡ none
        → transition_mutation i allowed next v (is_released next) s ≡ err mutation_not_found
    missing_err h = rw (h, transition_mutation) refl

note_sent :
    (m : Mutation) (order : ℕ) (s : Store)
    → from_sent m.state ≡ true
    → note_order m order s
      ≡ ok (record s {
        outbox = update m.intent_id (λ x. record x { provider_order_id = some order }) s.outbox;
      })
unfolding note_order
note_sent m order s h = rw (h, note_order) refl

note_unsent :
    (m : Mutation) (order : ℕ) (s : Store)
    → from_sent m.state ≡ false
    → note_order m order s ≡ err order_note_invalid
unfolding note_order
note_unsent m order s h = rw (h, note_order) refl

note-Effect : (i order : ℕ) (s s' : Store) → note_provider_order_id i order s ≡ ok s' → Effect s s'
unfolding note_provider_order_id
note-Effect i order s s' e = elim (Option-cases (find_mutation i s.outbox)) [
  | inl missing ↦ cc (note_missing missing)
  | inr (m, found) ↦ elim (Bool-cases (from_sent m.state)) [
    | inl sent ↦
        noted m order (find_mutation_self i s.outbox m found) sent
          (ok_inj (sym e ∙ note_found m found ∙ note_sent m order s sent))
    | inr unsent ↦ cc (sym e ∙ note_found m found ∙ note_unsent m order s unsent)
  ]
]
  where
    note_missing :
        find_mutation i s.outbox ≡ none → note_provider_order_id i order s ≡ err order_note_invalid
    note_missing h = rw (h, note_provider_order_id) refl

    note_found :
        (m : Mutation)
        → find_mutation i s.outbox ≡ some m
        → note_provider_order_id i order s ≡ note_order m order s
    note_found m h = rw (h, note_provider_order_id) refl

-- The transitions that the operations allow are those of the life of a mutation.
pub apply-Effect : (o : Op) (s s' : Store) → apply o s ≡ ok s' → Effect s s'
unfolding apply mark_submitting mark_submitted mark_confirmed_not_submitted mark_rejected
    mark_ambiguous
apply-Effect (prepare i op r tag at) s s' e = prepare-Effect i op r tag at s s' e
apply-Effect (to_submitting i at) s s' e =
    transition-Effect i from_prepared submitting _ s s' (λ f a d. ground arith) e
apply-Effect (note i order) s s' e = note-Effect i order s s' e
apply-Effect (to_submitted i order at) s s' e =
    transition-Effect i from_sent submitted _ s s' (λ f a d. ground arith) e
apply-Effect (to_not_submitted i at) s s' e =
    transition-Effect i from_prepared confirmed_not_submitted _ s s' (λ f a d. ground arith) e
apply-Effect (to_rejected i error at) s s' e =
    transition-Effect i from_submitting rejected _ s s' (λ f a d. ground arith) e
apply-Effect (to_ambiguous i error) s s' e =
    transition-Effect i from_sent ambiguous _ s s' (λ f a d. ground arith) e
