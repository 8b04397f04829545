-- ===== src/Execution/Store/Exclusion.antt =====
-- The latch invariant of the execution store is kept, and what it gives.
use mathlib.Core.Path.{subst}
use glitch_topstep.Execution.Store.Effect.{may_follow, is_released}
use glitch_topstep.Execution.Store.Lifecycle.{
  find_mutation-append, find_mutation-update_ne, find_mutation-update,
}
use glitch_topstep.Execution.Store.Latch.{is_open_entry, Distinct, Holds}
use glitch_topstep.Execution.Store.Tables.{
  Operation, MutationState, Request, Mutation, Store, place_order, close_position, modify_order,
  no_mutation,
}
use glitch_topstep.Execution.Store.Prepare.{
  find_mutation, is_protected_entry, is_place, violates, new_mutation,
}
use glitch_topstep.Execution.Store.Transitions.{Values, write_values, update, clear_latch}
use glitch_topstep.Prelude.{
  ◌==◌, if◌then◌else◌, Bool-cases, some_of, some_inj, All, ℕ, ◌≡◌, refl, sym, ◌∙◌, ◌≢◌, inl, inr,
  true, false, ◌&&◌, Option, none, some, List, [], ◌∷◌, ◌++◌, arith, ℕ_discrete,
}

open_before :
    (next : MutationState) (v : Values) (m : Mutation)
    → may_follow m.state next ≡ true
    → is_open_entry (write_values next v m) ≡ true
    → is_open_entry m ≡ true
unfolding write_values
open_before next v m h o = ground arith

open_after :
    (next : MutationState) (v : Values) (m : Mutation)
    → is_released next ≡ false
    → is_open_entry m ≡ true
    → is_open_entry (write_values next v m) ≡ true
unfolding write_values
open_after next v m h o = ground arith

released_closed :
    (next : MutationState) (v : Values) (m : Mutation)
    → is_released next ≡ true
    → is_open_entry (write_values next v m) ≡ false
unfolding write_values
released_closed next v m h = ground arith

pub clear_latch_kept : (i j : ℕ) (l : Option ℕ) → l ≡ some j → j ≢ i → clear_latch i l ≡ some j
unfolding clear_latch
clear_latch_kept i j none e ne = cc
clear_latch_kept i j (some k) e ne = ground arith

pub clear_latch_was : (i j : ℕ) (l : Option ℕ) → clear_latch i l ≡ some j → (l ≡ some j) × (j ≢ i)
unfolding clear_latch
clear_latch_was i j none e = cc
clear_latch_was i j (some k) e = ground arith

pub absent_of_violates :
    (i : ℕ) (tag : Option ℕ) (s : Store)
    → violates i tag s ≡ false
    → some_of (λ m. m.intent_id == i) s.outbox ≡ false
unfolding violates
absent_of_violates i tag s e = ground arith

pub absent_ids :
    (i : ℕ) (ms : List Mutation)
    → some_of (λ m. m.intent_id == i) ms ≡ false
    → All (λ m. m.intent_id ≢ i) ms
absent_ids i [] e = tt
absent_ids i (m ∷ ms) e = (ground arith, absent_ids i ms (ground arith))

find_last :
    (i : ℕ) (ms : List Mutation) (m : Mutation)
    → m.intent_id ≡ i
    → All (λ x. x.intent_id ≢ i) ms
    → find_mutation i (ms ++ m ∷ []) ≡ some m
unfolding find_mutation
find_last i [] m e a = ground arith
find_last i (x ∷ ms) m e a = ground (arith, find_last i ms m e a.1)

pub Distinct-snoc :
    (ms : List Mutation) (m : Mutation)
    → Distinct ms
    → All (λ x. x.intent_id ≢ m.intent_id) ms
    → Distinct (ms ++ m ∷ [])
Distinct-snoc [] m d a = (tt, tt)
Distinct-snoc (x ∷ ms) m d a =
    (snoc x.intent_id ms m d.0 (λ e. a.0 (sym e)), Distinct-snoc ms m d.1 a.1)
  where
    snoc :
        (j : ℕ) (ms : List Mutation) (m : Mutation)
        → All (λ x. x.intent_id ≢ j) ms
        → m.intent_id ≢ j
        → All (λ x. x.intent_id ≢ j) (ms ++ m ∷ [])
    snoc j [] m a h = (h, tt)
    snoc j (x ∷ ms) m a h = (a.0, snoc j ms m a.1 h)

pub All-snoc :
    (P P' : Mutation → Type 0) (ms : List Mutation) (m : Mutation)
    → ((x : Mutation) → P x → P' x)
    → P' m
    → All P ms
    → All P' (ms ++ m ∷ [])
All-snoc P P' [] m f h a = (h, tt)
All-snoc P P' (x ∷ ms) m f h a = (f x a.0, All-snoc P P' ms m f h a.1)

abbrev pub taken_latch : ℕ → Operation → Request → Option ℕ → Option ℕ
taken_latch i op r l = if is_place op && is_protected_entry r then some i else l

pub inserted-Holds_old :
    (i : ℕ) (op : Operation) (r : Request) (l : Option ℕ) (x : Mutation)
    → (is_place op ≡ true → l ≡ none)
    → Holds l x
    → Holds (taken_latch i op r l) x
inserted-Holds_old i place_order r l x free h o = cc (sym (h o) ∙ free refl)
inserted-Holds_old i close_position r l x free h o = h o
inserted-Holds_old i modify_order r l x free h o = h o
inserted-Holds_old i no_mutation r l x free h o = h o

pub inserted-Holds_new :
    (i : ℕ) (op : Operation) (r : Request) (tag : Option ℕ) (at : ℕ) (l : Option ℕ)
    → Holds (taken_latch i op r l) (new_mutation i op r tag at)
unfolding new_mutation is_protected_entry
inserted-Holds_new i op r tag at l o = ground arith

pub inserted-owned :
    (i : ℕ) (op : Operation) (r : Request) (tag : Option ℕ) (at : ℕ) (s : Store)
    → All (λ x. x.intent_id ≢ i) s.outbox
    → ((j : ℕ)
        → s.entry_latch ≡ some j
        → (m : Mutation) × (find_mutation j s.outbox ≡ some m) × (is_open_entry m ≡ true))
    → (j : ℕ) → taken_latch i op r s.entry_latch ≡ some j
    → (m : Mutation) × (find_mutation j (s.outbox ++ new_mutation i op r tag at ∷ []) ≡ some m)
      × (is_open_entry m ≡ true)
inserted-owned i op r tag at s absent owned j e =
    elim (Bool-cases (is_place op && is_protected_entry r)) [
      | inl takes ↦
          let same : i ≡ j = some_inj (rw takes at e) in
          (
            new_mutation i op r tag at,
            subst
                (λ k.
                  find_mutation k (s.outbox ++ new_mutation i op r tag at ∷ [])
                  ≡ some (new_mutation i op r tag at))
                same
                (find_last i s.outbox (new_mutation i op r tag at) (unfold new_mutation in refl)
                  absent),
            open_new i op r tag at takes,
          )
      | inr keeps ↦
          let (m, found, open_m) = owned j (rw keeps at e) in
          (m, find_mutation-append j s.outbox _ m found, open_m)
    ]
  where
    open_new :
        (i : ℕ) (op : Operation) (r : Request) (tag : Option ℕ) (at : ℕ)
        → (is_place op && is_protected_entry r) ≡ true
        → is_open_entry (new_mutation i op r tag at) ≡ true
    open_new i op r tag at h = unfold new_mutation is_protected_entry in ground arith

-- The latch after a transition of the mutation `i` to `next`.
abbrev pub moved_latch : MutationState → ℕ → Option ℕ → Option ℕ
moved_latch next i l = if is_released next then clear_latch i l else l

pub moved-Holds_other :
    (next : MutationState) (i : ℕ) (l : Option ℕ) (x : Mutation)
    → x.intent_id ≢ i
    → Holds l x
    → Holds (moved_latch next i l) x
moved-Holds_other next i l x ne h o = elim (Bool-cases (is_released next)) [
  | inl e ↦ rw e (clear_latch_kept i x.intent_id l (h o) ne)
  | inr e ↦ rw e (h o)
]

pub moved-Holds_this :
    (next : MutationState) (v : Values) (l : Option ℕ) (m : Mutation)
    → may_follow m.state next ≡ true
    → Holds l m
    → Holds (moved_latch next m.intent_id l) (write_values next v m)
moved-Holds_this next v l m may h o = elim (Bool-cases (is_released next)) [
  | inl e ↦ cc (o, released_closed next v m e)
  | inr e ↦ rw e (unfold write_values in h (open_before next v m may o))
]

pub moved-owned :
    (next : MutationState) (v : Values) (m : Mutation) (s : Store)
    → find_mutation m.intent_id s.outbox ≡ some m
    → ((j : ℕ)
        → s.entry_latch ≡ some j
        → (x : Mutation) × (find_mutation j s.outbox ≡ some x) × (is_open_entry x ≡ true))
    → (j : ℕ) → moved_latch next m.intent_id s.entry_latch ≡ some j
    → (x : Mutation) × (find_mutation j (update m.intent_id (write_values next v) s.outbox)
        ≡ some x)
      × (is_open_entry x ≡ true)
moved-owned next v m s found owned j e = elim (Bool-cases (is_released next)) [
  | inl rel ↦
      let (was, ne) = clear_latch_was m.intent_id j s.entry_latch (rw rel at e) in
      let (x, there, open_x) = owned j was in
      (
        x,
        find_mutation-update_ne j m.intent_id (write_values next v) s.outbox
              (λ y. unfold write_values in refl) ne
            ∙ there,
        open_x,
      )
  | inr live ↦
      let (x, there, open_x) = owned j (rw live at e) in
      elim (ℕ_discrete j m.intent_id) [
        | yes same ↦
            let this : x ≡ m =
              some_inj
                (sym there ∙ subst (λ k. find_mutation k s.outbox ≡ some m) (sym same) found) in
            (
              write_values next v m,
              subst
                  (λ k.
                    find_mutation k (update m.intent_id (write_values next v) s.outbox)
                    ≡ some (write_values next v m))
                  (sym same)
                  (find_mutation-update m.intent_id (write_values next v) s.outbox m
                    (λ y. unfold write_values in refl) found),
              open_after next v m live
                  (subst (λ (r : Mutation). is_open_entry r ≡ true) this open_x),
            )
        | no ne ↦ (
          x,
          find_mutation-update_ne j m.intent_id (write_values next v) s.outbox
                (λ y. unfold write_values in refl) ne
              ∙ there,
          open_x,
        )
      ]
]
