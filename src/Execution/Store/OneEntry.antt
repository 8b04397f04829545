-- ===== src/Execution/Store/OneEntry.antt =====
-- What the entry latch of src/storage/sqlite-execution-store.ts gives.
use mathlib.Core.Path.{subst}
use glitch_topstep.Execution.Store.Effect.{Effect, find_mutation-id, apply-Effect}
use glitch_topstep.Execution.Store.Lifecycle.{after, run}
use glitch_topstep.Execution.Store.Latch.{is_open_entry, Holds, Inv}
use glitch_topstep.Execution.Store.Clearing.{is_among, Ties, Tied, Effect-Tied, Reach, Reach-Tied}
use glitch_topstep.Execution.Store.Tables.{Mutation, Store, Result, submitting, ambiguous, ok, err}
use glitch_topstep.Execution.Store.Prepare.{find_mutation}
use glitch_topstep.Execution.Store.Transitions.{from_sent}
use glitch_topstep.Execution.Store.Recovery.{recovery_status, Op, apply}
use glitch_topstep.Prelude.{
  ltb, ◌==◌, Bool-cases, length, some_inj, keep, All, All-map, ℕ, ◌≡◌, refl, sym, ap, ◌∙◌, ◌≢◌, ◌⊎◌,
  inl, inr, true, false, some, none, List, [], ◌∷◌, arith,
}

to-Tied : (s : Store) → Inv s → Tied [] s
to-Tied s v = record {
  distinct = v.distinct;
  exclusive = All-map (λ m h u. h) s.outbox v.exclusive;
  owned = v.owned;
}

of-Tied : (s : Store) → Tied [] s → Inv s
of-Tied s v = record {
  distinct = v.distinct;
  exclusive = All-map (λ m h. h refl) s.outbox v.exclusive;
  owned = v.owned;
}

Effect-Inv : (s s' : Store) → Effect s s' → Inv s → Inv s'
Effect-Inv s s' effect v = of-Tied s' (Effect-Tied [] s s' effect (to-Tied s v))

after-Inv : (o : Op) (s : Store) (r : Result Store) → apply o s ≡ r → Inv s → Inv (after s r)
after-Inv o s (err x) e v = v
after-Inv o s (ok s') e v = Effect-Inv s s' (apply-Effect o s s' e) v

-- Every operation on mutations keeps the rows distinct and ties the open entries to the latch,
-- whether it succeeds or fails.
pub run-Inv : (os : List Op) (s : Store) → Inv s → Inv (run os s)
unfolding run
run-Inv [] s v = v
run-Inv (o ∷ os) s v = run-Inv os (after s (apply o s)) (after-Inv o s (apply o s) refl v)

find-All :
    (P : Mutation → Type 0) (i : ℕ) (ms : List Mutation) (m : Mutation)
    → All P ms
    → find_mutation i ms ≡ some m
    → P m
unfolding find_mutation
find-All P i [] m a e = cc
find-All P i (x ∷ ms) m a e = elim (Bool-cases (x.intent_id == i)) [
  | inl hit ↦ subst P (some_inj (rw hit at e)) a.0
  | inr miss ↦ find-All P i ms m a.1 (rw miss at e)
]

-- From a store that meets the invariant, until the latch is cleared from outside, two protected
-- entries that may be at the venue are one: a second is not even prepared.
pub run_one_entry :
    (os : List Op) (s : Store) (i j : ℕ) (m n : Mutation)
    → Inv s
    → find_mutation i (run os s).outbox ≡ some m
    → find_mutation j (run os s).outbox ≡ some n
    → is_open_entry m ≡ true
    → is_open_entry n ≡ true
    → i ≡ j
run_one_entry os s i j m n v at_i at_j open_m open_n =
    let w = run-Inv os s v in
    let u = (run os s).outbox in
    let latched =
      sym (find-All (Holds (run os s).entry_latch) i u m w.exclusive at_i open_m)
      ∙ find-All (Holds (run os s).entry_latch) j u n w.exclusive at_j open_n in
    sym (find_mutation-id i u m at_i) ∙ some_inj latched ∙ find_mutation-id j u n at_j

none_sent :
    (i : ℕ) (ms : List Mutation) (m : Mutation)
    → ltb 0 (length (keep (λ x. from_sent x.state) ms)) ≡ false
    → find_mutation i ms ≡ some m
    → (m.state ≢ submitting) × (m.state ≢ ambiguous)
unfolding find_mutation
none_sent i [] m h e = cc
none_sent i (x ∷ ms) m h e = elim (Bool-cases (from_sent x.state)) [
  | inl sent ↦ absurd (ground arith)
  | inr unsent ↦ elim (Bool-cases (x.intent_id == i)) [
    | inl hit ↦
        let here : x ≡ m = some_inj (rw hit at e) in
        subst (λ (r : Mutation). (r.state ≢ submitting) × (r.state ≢ ambiguous)) here
          ((λ at. cc (sym unsent ∙ ap from_sent at)), (λ at. cc (sym unsent ∙ ap from_sent at)))
    | inr miss ↦ none_sent i ms m (rw unsent at h) (rw miss at e)
  ]
]

unblocked_parts :
    (s : Store)
    → (recovery_status s).blocking_new_exposure ≡ false
    → (ltb 0 (length (keep (λ (m : Mutation). from_sent m.state) s.outbox)) ≡ false)
      × (s.entry_latch ≡ none)
unfolding recovery_status
unblocked_parts s h = ground arith

-- However the operations on mutations interleave with calls from outside that clear the latch, from a
-- store without mutations on: the latch is only ever held by a protected entry that may be at the
-- venue, so that an entry that was refused or never left cannot block the next. And every such entry
-- holds it, unless its latch was cleared from outside.
pub owned_latch :
    (seen : List ℕ) (s : Store)
    → Reach seen s
    → ((i : ℕ)
        → s.entry_latch ≡ some i
        → (m : Mutation) × (find_mutation i s.outbox ≡ some m) × (is_open_entry m ≡ true))
      × ((i : ℕ) (m : Mutation)
          → find_mutation i s.outbox ≡ some m
          → is_open_entry m ≡ true
          → (s.entry_latch ≡ some i) ⊎ (is_among i seen ≡ true))
owned_latch seen s r =
    let v = Reach-Tied r in
    (
      v.owned,
      λ i m found o. elim (Bool-cases (is_among i seen)) [
        | inl was ↦ inr was
        | inr never ↦
            let this = find_mutation-id i s.outbox m found in
            let ties = find-All (Ties seen s.entry_latch) i s.outbox m v.exclusive found in
            inl (ties (ap (λ k. is_among k seen) this ∙ never) o ∙ ap some this)
      ],
    )

-- However operations on mutations and calls from outside that clear the latch have interleaved, from
-- a store without mutations on: new exposure is not blocked only when no mutation is on its way with
-- its fate unknown, and no protected entry may be at the venue but those whose latch was cleared from
-- outside.
pub unblocked :
    (seen : List ℕ) (s : Store) (i : ℕ) (m : Mutation)
    → Reach seen s
    → (recovery_status s).blocking_new_exposure ≡ false
    → find_mutation i s.outbox ≡ some m
    → ((m.state ≢ submitting) × (m.state ≢ ambiguous))
      × (is_open_entry m ≡ true → is_among i seen ≡ true)
unblocked seen s i m r free found =
    let (quiet, unlatched) = unblocked_parts s free in
    (
      none_sent i s.outbox m quiet found,
      λ o. elim ((owned_latch seen s r).1 i m found o) [
        | inl held ↦ cc (unlatched, held)
        | inr was ↦ was
      ],
    )
