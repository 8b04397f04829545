-- ===== src/Execution/Store/Latch.antt =====
-- The entry latch: one protected entry at a time, and no latch without its entry.
use mathlib.Core.Path.{subst}
use glitch_topstep.Execution.Store.Effect.{is_released}
use glitch_topstep.Execution.Store.Tables.{Mutation, Store}
use glitch_topstep.Execution.Store.Prepare.{find_mutation, is_place}
use glitch_topstep.Execution.Store.Transitions.{update}
use glitch_topstep.Prelude.{
  ◌==◌, ==_iff, Bool-cases, some_inj, All, ℕ, ◌≡◌, sym, ◌≢◌, inl, inr, Bool, true, not, ◌&&◌, ◌||◌,
  Option, some, List, [], ◌∷◌, arith,
}

-- A protected entry that is not known to have stayed away from the venue.
abbrev pub is_open_entry : Mutation → Bool
is_open_entry m =
    is_place m.operation
    && ((m.request.stop_loss_bracket || m.request.take_profit_bracket) && not (is_released m.state))

abbrev pub Distinct : List Mutation → Type 0
Distinct [] = Unit {0}
Distinct (m ∷ ms) = All (λ x. x.intent_id ≢ m.intent_id) ms × Distinct ms

abbrev pub Holds : Option ℕ → Mutation → Type 0
Holds latch m = is_open_entry m ≡ true → latch ≡ some m.intent_id

-- The outbox has one row for an intent, every open entry holds the latch, and the latch is held by
-- an open entry.
pub record Inv (s : Store) : Type 0 where
  pub distinct : Distinct s.outbox
  pub exclusive : All (Holds s.entry_latch) s.outbox
  pub owned :
      (i : ℕ)
      → s.entry_latch ≡ some i
      → (m : Mutation) × (find_mutation i s.outbox ≡ some m) × (is_open_entry m ≡ true)

module _ (P P' : Mutation → Type 0) (i : ℕ) (f : Mutation → Mutation) where
  All-update_absent :
      (xs : List Mutation)
      → ((x : Mutation) → x.intent_id ≢ i → P x → P' x)
      → All (λ x. x.intent_id ≢ i) xs
      → All P xs
      → All P' (update i f xs)
  unfolding update
  All-update_absent [] other absent a = tt
  All-update_absent (x ∷ xs) other absent a =
      let rest = All-update_absent xs other absent.1 a.1 in
      let one = other x absent.0 a.0 in
      elim (Bool-cases (x.intent_id == i)) [
        | inl hit ↦ absurd (absent.0 ((==_iff _ _).0 hit))
        | inr miss ↦ rw miss (one, rest)
      ]

  pub All-update :
      (xs : List Mutation) (m : Mutation)
      → Distinct xs
      → find_mutation i xs ≡ some m
      → ((x : Mutation) → x.intent_id ≢ i → P x → P' x)
      → (P m → P' (f m))
      → All P xs
      → All P' (update i f xs)
  unfolding update find_mutation
  All-update [] m d found other this a = tt
  All-update (x ∷ xs) m d found other this a = elim (Bool-cases (x.intent_id == i)) [
    | inl hit ↦
        let eq : x ≡ m = some_inj (rw hit at found) in
        rw hit (
          subst (λ (r : Mutation). P' (f r)) (sym eq) (this (subst P eq a.0)),
          All-update_absent xs other
              (subst (λ j. All (λ y. y.intent_id ≢ j) xs) ((==_iff _ _).0 hit) d.0) a.1,
        )
    | inr miss ↦ rw miss (
      other x (λ e. cc ((==_iff _ _).1 e, miss)) a.0,
      All-update xs m d.1 (rw miss at found) other this a.1,
    )
  ]

All-ne-update :
    (j i : ℕ) (f : Mutation → Mutation) (xs : List Mutation)
    → ((x : Mutation) → (f x).intent_id ≡ x.intent_id)
    → All (λ x. x.intent_id ≢ j) xs
    → All (λ x. x.intent_id ≢ j) (update i f xs)
unfolding update
All-ne-update j i f [] same a = tt
All-ne-update j i f (x ∷ xs) same a = ground (arith, same x, All-ne-update j i f xs same a.1)

pub Distinct-update :
    (i : ℕ) (f : Mutation → Mutation) (xs : List Mutation)
    → ((x : Mutation) → (f x).intent_id ≡ x.intent_id)
    → Distinct xs
    → Distinct (update i f xs)
unfolding update
Distinct-update i f [] same d = tt
Distinct-update i f (x ∷ xs) same d = elim (Bool-cases (x.intent_id == i)) [
  | inl hit ↦ rw hit (
    subst (λ j. All (λ y. y.intent_id ≢ j) (update i f xs)) (sym (same x))
        (All-ne-update x.intent_id i f xs same d.0),
    Distinct-update i f xs same d.1,
  )
  | inr miss ↦ rw miss (All-ne-update x.intent_id i f xs same d.0, Distinct-update i f xs same d.1)
]
