-- ===== src/Execution/Store/Clearing.antt =====
-- clearEntrySubmissionLatch of src/storage/sqlite-execution-store.ts among the operations on
-- mutations: the service and the recovery call it from outside, when the venue shows an entry, when
-- its latch is stale, or when there is no entry left to wait for. Which of them it was is not told.
use mathlib.Core.Path.{subst}
use glitch_topstep.Execution.Store.Effect.{Effect, unchanged, inserted, moved, noted, apply-Effect}
use glitch_topstep.Execution.Store.Lifecycle.{
  find_mutation-update_ne, find_mutation-update, after, run,
}
use glitch_topstep.Execution.Store.Latch.{
  is_open_entry, Holds, Distinct, All-update, Distinct-update,
}
use glitch_topstep.Execution.Store.Exclusion.{
  inserted-Holds_old, inserted-Holds_new, inserted-owned, moved-Holds_other, moved-Holds_this,
  moved-owned, absent_of_violates, absent_ids, Distinct-snoc, All-snoc, clear_latch_was,
  moved_latch, taken_latch,
}
use glitch_topstep.Execution.Store.Tables.{Mutation, Store, Result, ok, err}
use glitch_topstep.Execution.Store.Prepare.{find_mutation, same_tag, new_mutation}
use glitch_topstep.Execution.Store.Transitions.{
  write_values, update, clear_latch, clear_entry_latch,
}
use glitch_topstep.Execution.Store.Recovery.{Op, apply}
use glitch_topstep.Prelude.{
  ◌==◌, if◌then◌else◌, Bool-cases, some_of, some_inj, sym, ℕ_discrete, ◌∙◌, All, All-map, ℕ, ◌≡◌,
  refl, inl, inr, Bool, true, false, Option, none, some, List, [], ◌∷◌, arith,
}

-- The intent is among those.
abbrev pub is_among : ℕ → List ℕ → Bool
is_among i seen = some_of (λ k. k == i) seen

-- An open entry holds the latch, unless its latch was cleared from outside.
abbrev pub Ties : List ℕ → Option ℕ → Mutation → Type 0
Ties seen latch m = is_among m.intent_id seen ≡ false → Holds latch m

-- What holds of a store whose latch was cleared from outside for the intents of the list.
pub record Tied (seen : List ℕ) (s : Store) : Type 0 where
  pub distinct : Distinct s.outbox
  pub exclusive : All (Ties seen s.entry_latch) s.outbox
  pub owned :
      (i : ℕ)
      → s.entry_latch ≡ some i
      → (m : Mutation) × (find_mutation i s.outbox ≡ some m) × (is_open_entry m ≡ true)

noted-owned :
    (m : Mutation) (order : ℕ) (s : Store)
    → find_mutation m.intent_id s.outbox ≡ some m
    → ((j : ℕ)
        → s.entry_latch ≡ some j
        → (x : Mutation) × (find_mutation j s.outbox ≡ some x) × (is_open_entry x ≡ true))
    → (j : ℕ) → s.entry_latch ≡ some j
    → (x : Mutation) × (find_mutation j
          (update m.intent_id (λ y. record y { provider_order_id = some order }) s.outbox)
        ≡ some x)
      × (is_open_entry x ≡ true)
noted-owned m order s found owned j e =
    let (x, there, open_x) = owned j e in
    elim (ℕ_discrete j m.intent_id) [
      | yes same ↦
          let f = λ (y : Mutation). record y { provider_order_id = some order } in
          let this : x ≡ m =
            some_inj
              (sym there ∙ subst (λ k. find_mutation k s.outbox ≡ some m) (sym same) found) in
          (
            f m,
            subst (λ k. find_mutation k (update m.intent_id f s.outbox) ≡ some (f m)) (sym same)
                (find_mutation-update m.intent_id f s.outbox m (λ y. refl) found),
            subst (λ (r : Mutation). is_open_entry r ≡ true) this open_x,
          )
      | no ne ↦ (
        x,
        find_mutation-update_ne j m.intent_id (λ y. record y { provider_order_id = some order })
              s.outbox (λ y. refl) ne
            ∙ there,
        open_x,
      )
    ]

pub Effect-Tied : (seen : List ℕ) (s s' : Store) → Effect s s' → Tied seen s → Tied seen s'
Effect-Tied seen s s' (unchanged e) v = rw e v
Effect-Tied seen s s' (inserted i op r tag at good free e) v =
    let absent = absent_ids i s.outbox (absent_of_violates i tag s good) in
    let l = taken_latch i op r s.entry_latch in
    rw e (record {
      distinct =
          Distinct-snoc s.outbox (new_mutation i op r tag at) v.distinct
            (unfold new_mutation in absent);
      exclusive =
          All-snoc (Ties seen s.entry_latch) (Ties seen l) s.outbox (new_mutation i op r tag at)
            (λ x h u. inserted-Holds_old i op r s.entry_latch x free (h u))
            (λ u. inserted-Holds_new i op r tag at s.entry_latch) v.exclusive;
      owned = inserted-owned i op r tag at s absent v.owned;
    })
Effect-Tied seen s s' (moved m next w found may e) v = rw e (record {
  distinct =
      Distinct-update m.intent_id (write_values next w) s.outbox (λ y. unfold write_values in refl)
        v.distinct;
  exclusive =
      All-update (Ties seen s.entry_latch) (Ties seen (moved_latch next m.intent_id s.entry_latch))
        m.intent_id (write_values next w) s.outbox m v.distinct found
        (λ x ne h u. moved-Holds_other next m.intent_id s.entry_latch x ne (h u))
        (λ h u. moved-Holds_this next w s.entry_latch m may (h (unfold write_values in u)))
        v.exclusive;
  owned = moved-owned next w m s found v.owned;
})
Effect-Tied seen s s' (noted m order found sent e) v = rw e (record {
  distinct = Distinct-update m.intent_id _ s.outbox (λ y. refl) v.distinct;
  exclusive =
      All-update (Ties seen s.entry_latch) (Ties seen s.entry_latch) m.intent_id _ s.outbox m
        v.distinct found (λ x ne h. h) (λ h. h) v.exclusive;
  owned = noted-owned m order s found v.owned;
})

after-Tied :
    (seen : List ℕ) (o : Op) (s : Store) (r : Result Store)
    → apply o s ≡ r
    → Tied seen s
    → Tied seen (after s r)
after-Tied seen o s (err x) e v = v
after-Tied seen o s (ok s') e v = Effect-Tied seen s s' (apply-Effect o s s' e) v

-- The intents whose latch was cleared from outside, after one more call that may have cleared one.
abbrev pub cleared : ℕ → Store → List ℕ → List ℕ
cleared j s seen = if (clear_entry_latch j s).1 then j ∷ seen else seen

latch-cleared :
    (j i : ℕ) (l : Option ℕ) (seen : List ℕ)
    → (is_among i seen ≡ false → l ≡ some i)
    → is_among i (if same_tag l (some j) then j ∷ seen else seen) ≡ false
    → clear_latch j l ≡ some i
unfolding clear_latch
latch-cleared j i none seen h u = cc (h u)
latch-cleared j i (some k) seen h u = elim (Bool-cases (k == j)) [
  | inl hit ↦ absurd (ground (arith, h))
  | inr miss ↦ ground (arith, h)
]

cleared-Ties :
    (j : ℕ) (s : Store) (seen : List ℕ) (m : Mutation)
    → Ties seen s.entry_latch m
    → Ties (cleared j s seen) (clear_entry_latch j s).0.entry_latch m
unfolding clear_entry_latch
cleared-Ties j s seen m h u o =
    latch-cleared j m.intent_id s.entry_latch seen (λ before. h before o) u

cleared-Tied :
    (j : ℕ) (s : Store) (seen : List ℕ)
    → Tied seen s
    → Tied (cleared j s seen) (clear_entry_latch j s).0
unfolding clear_entry_latch
cleared-Tied j s seen v = record {
  distinct = v.distinct;
  exclusive = All-map (cleared-Ties j s seen) s.outbox v.exclusive;
  owned = λ i e. v.owned i (clear_latch_was j i s.entry_latch e).0;
}

-- What the store can come to, and the intents whose latch was cleared from outside on the way. The
-- store starts without a mutation. An operation on mutations succeeds or fails, a call from outside
-- clears the latch or finds another, and other operations leave the outbox and the latch alone.
pub data Reach : List ℕ → Store → Type 0 where
  starts : {s : Store} → s.outbox ≡ [] → s.entry_latch ≡ none → Reach [] s
  operates :
      {seen : List ℕ} {s : Store} → Reach seen s → (o : Op) → Reach seen (after s (apply o s))
  clears :
      {seen : List ℕ} {s : Store}
      → Reach seen s
      → (j : ℕ) → Reach (cleared j s seen) (clear_entry_latch j s).0
  elsewhere :
      {seen : List ℕ} {s s' : Store}
      → Reach seen s
      → s'.outbox ≡ s.outbox
      → s'.entry_latch ≡ s.entry_latch
      → Reach seen s'

pub Reach-Tied : {seen : List ℕ} {s : Store} → Reach seen s → Tied seen s
Reach-Tied (starts {s} e l) = record {
  distinct = rw e tt;
  exclusive = rw e tt;
  owned = λ i h. cc (h, l);
}
Reach-Tied (operates {seen} {s} r o) = after-Tied seen o s (apply o s) refl (Reach-Tied r)
Reach-Tied (clears {seen} {s} r j) = cleared-Tied j s seen (Reach-Tied r)
Reach-Tied (elsewhere r e l) =
    let v = Reach-Tied r in
    record {
      distinct = rw e v.distinct;
      exclusive = rw (e, l) v.exclusive;
      owned = rw (e, l) v.owned;
    }

pub Reach-run : {seen : List ℕ} (os : List Op) (s : Store) → Reach seen s → Reach seen (run os s)
unfolding run
Reach-run [] s r = r
Reach-run (o ∷ os) s r = Reach-run os (after s (apply o s)) (operates r o)
