-- ===== src/Execution/Store/Lifecycle.antt =====
-- The life of a mutation, whatever operations run.
use mathlib.Core.Path.{subst}
use glitch_topstep.Execution.Store.Effect.{
  may_follow, Effect, unchanged, inserted, moved, noted, apply-Effect,
}
use glitch_topstep.Execution.Store.Tables.{
  MutationState, Mutation, Store, Result, submitted, confirmed_not_submitted, rejected, ok, err,
}
use glitch_topstep.Execution.Store.Prepare.{find_mutation}
use glitch_topstep.Execution.Store.Transitions.{Values, write_values, update, from_sent}
use glitch_topstep.Execution.Store.Recovery.{Op, apply}
use glitch_topstep.Prelude.{
  ◌==◌, Bool-cases, some_inj, ℕ, ◌≡◌, refl, sym, ap, ◌∙◌, ◌≢◌, inl, inr, Bool, true, false, some,
  List, [], ◌∷◌, ◌++◌, arith, ℕ_discrete,
}

-- One step in the life of one row.
pub data Edge (m : Mutation) : Mutation → Type 0 where
  stays : Edge m m
  notes :
      (order : ℕ) → from_sent m.state ≡ true → Edge m (record m { provider_order_id = some order })
  moves :
      (next : MutationState) (v : Values)
      → may_follow m.state next ≡ true
      → Edge m (write_values next v m)

pub find_mutation-append :
    (i : ℕ) (xs ys : List Mutation) (m : Mutation)
    → find_mutation i xs ≡ some m
    → find_mutation i (xs ++ ys) ≡ some m
unfolding find_mutation
find_mutation-append i [] ys m e = cc
find_mutation-append i (x ∷ xs) ys m e = ground (arith, find_mutation-append i xs ys m)

pub find_mutation-update_ne :
    (i j : ℕ) (f : Mutation → Mutation) (xs : List Mutation)
    → ((x : Mutation) → (f x).intent_id ≡ x.intent_id)
    → i ≢ j
    → find_mutation i (update j f xs) ≡ find_mutation i xs
unfolding find_mutation update
find_mutation-update_ne i j f [] same ne = refl
find_mutation-update_ne i j f (x ∷ xs) same ne =
    ground (arith, same x, find_mutation-update_ne i j f xs same ne)

pub find_mutation-update :
    (i : ℕ) (f : Mutation → Mutation) (xs : List Mutation) (m : Mutation)
    → ((x : Mutation) → (f x).intent_id ≡ x.intent_id)
    → find_mutation i xs ≡ some m
    → find_mutation i (update i f xs) ≡ some (f m)
unfolding find_mutation update
find_mutation-update i f [] m same e = cc
find_mutation-update i f (x ∷ xs) m same e = elim (Bool-cases (x.intent_id == i)) [
  | inl hit ↦
      let eq : x ≡ m = some_inj (rw hit at e) in
      ground (arith, same x, ap (λ (r : Mutation). some (f r)) eq)
  | inr miss ↦ ground (arith, find_mutation-update i f xs m same (rw miss at e))
]

-- Where a row was, a row is, one step on.
abbrev Steps : ℕ → Mutation → Store → Type 0
Steps i m s' = (m' : Mutation) × (find_mutation i s'.outbox ≡ some m') × Edge m m'

updated-Steps :
    (i j : ℕ) (f : Mutation → Mutation) (m n : Mutation) (s s' : Store)
    → ((x : Mutation) → (f x).intent_id ≡ x.intent_id)
    → find_mutation i s.outbox ≡ some m
    → find_mutation j s.outbox ≡ some n
    → Edge n (f n)
    → s'.outbox ≡ update j f s.outbox
    → Steps i m s'
updated-Steps i j f m n s s' same found at_j edge e = elim (ℕ_discrete i j) [
  | yes eq ↦
      let here : m ≡ n =
        some_inj (sym found ∙ subst (λ k. find_mutation k s.outbox ≡ some n) (sym eq) at_j) in
      (
        f n,
        subst (λ xs. find_mutation i xs ≡ some (f n)) (sym e)
            (subst (λ k. find_mutation k (update j f s.outbox) ≡ some (f n)) (sym eq)
              (find_mutation-update j f s.outbox n same at_j)),
        subst (λ (x : Mutation). Edge x (f n)) (sym here) edge,
      )
  | no ne ↦
      (m, ap (find_mutation i) e ∙ find_mutation-update_ne i j f s.outbox same ne ∙ found, stays)
]

Effect-Steps :
    (i : ℕ) (m : Mutation) (s s' : Store)
    → find_mutation i s.outbox ≡ some m
    → Effect s s'
    → Steps i m s'
Effect-Steps i m s s' found (unchanged e) =
    (m, ap (λ (r : Store). find_mutation i r.outbox) e ∙ found, stays)
Effect-Steps i m s s' found (inserted j op r tag at good free e) = (
  m,
  ap (λ (r : Store). find_mutation i r.outbox) e ∙ find_mutation-append i s.outbox _ m found,
  stays,
)
Effect-Steps i m s s' found (moved n next v at_n may e) =
    updated-Steps i n.intent_id (write_values next v) m n s s' (λ x. unfold write_values in refl)
      found at_n (moves next v may) (ap (λ (r : Store). r.outbox) e)
Effect-Steps i m s s' found (noted n order at_n sent e) =
    updated-Steps i n.intent_id (λ x. record x { provider_order_id = some order }) m n s s'
      (λ x. refl) found at_n (notes order sent) (ap (λ (r : Store). r.outbox) e)

-- No operation, on any mutation, drops a row or moves it but along the life of a mutation.
pub apply-Edge :
    (o : Op) (i : ℕ) (m : Mutation) (s s' : Store)
    → find_mutation i s.outbox ≡ some m
    → apply o s ≡ ok s'
    → (m' : Mutation) × (find_mutation i s'.outbox ≡ some m') × Edge m m'
apply-Edge o i m s s' found e = Effect-Steps i m s s' found (apply-Effect o s s' e)

-- Each operation in turn; one that fails leaves the store as it was.
abbrev pub after : Store → Result Store → Store
after s (ok s') = s'
after s (err e) = s

unfoldable pub run : List Op → Store → Store
run [] s = s
run (o ∷ os) s = run os (after s (apply o s))

abbrev pub is_settled : MutationState → Bool
is_settled submitted = true
is_settled confirmed_not_submitted = true
is_settled rejected = true
is_settled _ = false

settled-Edge : {m m' : Mutation} → is_settled m.state ≡ true → Edge m m' → m' ≡ m
settled-Edge h stays = refl
settled-Edge {m} h (notes order sent) = ground arith
settled-Edge {m} h (moves next v may) = ground arith

after-settled :
    (i : ℕ) (m : Mutation) (s : Store) (o : Op) (r : Result Store)
    → apply o s ≡ r
    → find_mutation i s.outbox ≡ some m
    → is_settled m.state ≡ true
    → find_mutation i (after s r).outbox ≡ some m
after-settled i m s o (err x) e found h = found
after-settled i m s o (ok s') e found h =
    let (m', there, edge) = apply-Edge o i m s s' found e in there ∙ ap some (settled-Edge h edge)

-- A mutation that is submitted, rejected or known not to have left is final: no later sequence of
-- operations, failed ones included, changes anything in its row.
pub run_settled :
    (os : List Op) (i : ℕ) (m : Mutation) (s : Store)
    → find_mutation i s.outbox ≡ some m
    → is_settled m.state ≡ true
    → find_mutation i (run os s).outbox ≡ some m
unfolding run
run_settled [] i m s found h = found
run_settled (o ∷ os) i m s found h =
    run_settled os i m (after s (apply o s)) (after-settled i m s o (apply o s) refl found h) h
