-- ===== src/Execution/Reduction/Advance.antt =====
-- A reduction only moves along the transition graph.
use mathlib.Core.Path.{subst}
use glitch_topstep.Execution.Reduction.{
  ReductionState, flat, is_allowed, Error, assert_transition, Reduction, Patch, by_exit_intent,
  begin_protected_reduction, patched, update, flattened, advance_found, advance_protected_reduction,
  is_over, mark_protected_reductions_flat,
}
use glitch_topstep.Prelude.{
  ◌==◌, Bool-cases, Option-cases, some_of, some_inj, ℕ, ◌≡◌, refl, sym, ap, ◌∙◌, ◌≢◌, ◌⊎◌, inl, inr,
  true, false, ◌||◌, Option, none, some, List, [], ◌∷◌, ◌++◌, arith, ℕ_discrete,
}

pub data Op : Type 0 where
  begins : Reduction → Op
  advances : ℕ → ReductionState → Option ℕ → Patch → Op
  marks_flat : Option ℕ → Op

pub table_after : List Reduction → List Reduction ⊎ Error → List Reduction
table_after rs (inl new) = new
table_after rs (inr e) = rs

pub apply : Op → List Reduction → List Reduction
unfolding table_after
apply (begins r) rs = table_after rs (begin_protected_reduction r rs)
apply (advances i to now patch) rs = table_after rs (advance_protected_reduction i to now patch rs)
apply (marks_flat now) rs = mark_protected_reductions_flat now rs

-- The row is as it was, or its state went along one edge of the graph.
pub data Edge (r : Reduction) : Reduction → Type 0 where
  stays : Edge r r
  moves : {q : Reduction} → is_allowed r.state q.state ≡ true → Edge r q

by_exit_intent-append :
    (i : ℕ) (xs ys : List Reduction) (r : Reduction)
    → by_exit_intent i xs ≡ some r
    → by_exit_intent i (xs ++ ys) ≡ some r
unfolding by_exit_intent
by_exit_intent-append i [] ys r e = cc e
by_exit_intent-append i (x ∷ xs) ys r e = ground (arith, by_exit_intent-append i xs ys r)

by_exit_intent-update :
    (i : ℕ) (f : Reduction → Reduction) (xs : List Reduction) (r : Reduction)
    → ((x : Reduction) → (f x).exit_intent_id ≡ x.exit_intent_id)
    → by_exit_intent i xs ≡ some r
    → by_exit_intent i (update i f xs) ≡ some (f r)
unfolding by_exit_intent update
by_exit_intent-update i f [] r same e = cc e
by_exit_intent-update i f (x ∷ xs) r same e = elim (Bool-cases (x.exit_intent_id == i)) [
  | inl hit ↦
      let eq : x ≡ r = some_inj (rw hit at e) in
      ground (arith, same x, ap (λ (q : Reduction). some (f q)) eq)
  | inr miss ↦ ground (arith, by_exit_intent-update i f xs r same (rw miss at e))
]

by_exit_intent-update_ne :
    (i j : ℕ) (f : Reduction → Reduction) (xs : List Reduction)
    → ((x : Reduction) → (f x).exit_intent_id ≡ x.exit_intent_id)
    → i ≢ j
    → by_exit_intent i (update j f xs) ≡ by_exit_intent i xs
unfolding by_exit_intent update
by_exit_intent-update_ne i j f [] same ne = refl
by_exit_intent-update_ne i j f (x ∷ xs) same ne =
    ground (arith, same x, by_exit_intent-update_ne i j f xs same ne)

flattened-exit_intent_id :
    (now : Option ℕ) (r : Reduction) → (flattened now r).exit_intent_id ≡ r.exit_intent_id
unfolding flattened
flattened-exit_intent_id now r = ground arith

by_exit_intent-mark :
    (i : ℕ) (now : Option ℕ) (xs : List Reduction) (r : Reduction)
    → by_exit_intent i xs ≡ some r
    → by_exit_intent i (mark_protected_reductions_flat now xs) ≡ some (flattened now r)
unfolding by_exit_intent mark_protected_reductions_flat
by_exit_intent-mark i now [] r e = cc e
by_exit_intent-mark i now (x ∷ xs) r e = elim (Bool-cases (x.exit_intent_id == i)) [
  | inl hit ↦
      let eq : x ≡ r = some_inj (rw hit at e) in
      ground
        (arith, flattened-exit_intent_id now x, ap (λ (q : Reduction). some (flattened now q)) eq)
  | inr miss ↦
      ground (arith, flattened-exit_intent_id now x, by_exit_intent-mark i now xs r (rw miss at e))
]

-- Where a row was, a row is, one edge on.
abbrev Steps : ℕ → Reduction → List Reduction → Type 0
Steps i r rs = (q : Reduction) × (by_exit_intent i rs ≡ some q) × Edge r q

begin-Steps :
    (i : ℕ) (r new : Reduction) (rs : List Reduction)
    → by_exit_intent i rs ≡ some r
    → Steps i r (table_after rs (begin_protected_reduction new rs))
unfolding begin_protected_reduction table_after
begin-Steps i r new rs e =
    elim (Bool-cases (
      some_of
        (λ x. (x.reduction_id == new.reduction_id) || (x.exit_intent_id == new.exit_intent_id))
        rs)) [
          | inl h ↦ (r, rw h e, stays)
          | inr h ↦ (r, rw h (by_exit_intent-append i rs _ r e), stays)
        ]

is_over-flat : (s : ReductionState) → is_over s ≡ false → is_allowed s flat ≡ true
unfolding is_over is_allowed
is_over-flat s h = ground arith

flattened-Edge : (now : Option ℕ) (r : Reduction) → Edge r (flattened now r)
unfolding flattened
flattened-Edge now r = elim (Bool-cases (is_over r.state)) [
  | inl h ↦ rw h stays
  | inr h ↦ rw h (moves (is_over-flat r.state h))
]

mark-Steps :
    (i : ℕ) (r : Reduction) (now : Option ℕ) (rs : List Reduction)
    → by_exit_intent i rs ≡ some r
    → Steps i r (mark_protected_reductions_flat now rs)
mark-Steps i r now rs e = (flattened now r, by_exit_intent-mark i now rs r e, flattened-Edge now r)

assert-allowed :
    (from to : ReductionState) (now : Option ℕ)
    → assert_transition (some from) to now ≡ none
    → is_allowed from to ≡ true
unfolding assert_transition
assert-allowed from to now h = ground arith

advance_found-Steps :
    (i j : ℕ) (to : ReductionState) (now : Option ℕ) (patch : Patch) (r q : Reduction)
    (rs : List Reduction) (e : Option Error)
    → by_exit_intent i rs ≡ some r
    → by_exit_intent j rs ≡ some q
    → assert_transition (some q.state) to now ≡ e
    → Steps i r (table_after rs (advance_found e j to now patch rs))
unfolding advance_found table_after patched
advance_found-Steps i j to now patch r q rs (some x) found at h = (r, found, stays)
advance_found-Steps i j to now patch r q rs none found at h = elim (ℕ_discrete i j) [
  | yes same ↦
      let here : r ≡ q =
        some_inj (sym found ∙ subst (λ k. by_exit_intent k rs ≡ some q) (sym same) at) in
      (
        patched to patch now r,
        subst
            (λ k.
              by_exit_intent i (update k (patched to patch now) rs) ≡ some (patched to patch now r))
            same (by_exit_intent-update i (patched to patch now) rs r (λ x. refl) found),
        moves (
            assert-allowed r.state to now
              (ap (λ (x : Reduction). assert_transition (some x.state) to now) here ∙ h)),
      )
  | no ne ↦
      (r, by_exit_intent-update_ne i j (patched to patch now) rs (λ x. refl) ne ∙ found, stays)
]

advance-none :
    (j : ℕ) (to : ReductionState) (now : Option ℕ) (patch : Patch) (rs : List Reduction)
    → by_exit_intent j rs ≡ none
    → table_after rs (advance_protected_reduction j to now patch rs) ≡ rs
unfolding advance_protected_reduction table_after
advance-none j to now patch rs e = rw (e, advance_protected_reduction) refl

advance-some :
    (j : ℕ) (to : ReductionState) (now : Option ℕ) (patch : Patch) (q : Reduction)
    (rs : List Reduction)
    → by_exit_intent j rs ≡ some q
    → advance_protected_reduction j to now patch rs
      ≡ advance_found (assert_transition (some q.state) to now) j to now patch rs
unfolding advance_protected_reduction
advance-some j to now patch q rs e = rw (e, advance_protected_reduction) refl

advance-Steps :
    (i j : ℕ) (to : ReductionState) (now : Option ℕ) (patch : Patch) (r : Reduction)
    (rs : List Reduction)
    → by_exit_intent i rs ≡ some r
    → Steps i r (table_after rs (advance_protected_reduction j to now patch rs))
advance-Steps i j to now patch r rs found = elim (Option-cases (by_exit_intent j rs)) [
  | inl e ↦ subst (Steps i r) (sym (advance-none j to now patch rs e)) (r, found, stays)
  | inr (q, e) ↦
      subst (λ o. Steps i r (table_after rs o)) (sym (advance-some j to now patch q rs e))
        (advance_found-Steps i j to now patch r q rs _ found e refl)
]

-- Whatever operation runs on the reduction of whatever exit, with whatever result: a recorded
-- reduction stays recorded, and its state stays or goes along one edge of the transition graph. So
-- does the bulk update of a flat venue, which asks the graph nothing.
pub reduction-Edge :
    (o : Op) (i : ℕ) (r : Reduction) (rs : List Reduction)
    → by_exit_intent i rs ≡ some r
    → (q : Reduction) × (by_exit_intent i (apply o rs) ≡ some q) × Edge r q
unfolding apply
reduction-Edge (begins new) i r rs e = begin-Steps i r new rs e
reduction-Edge (advances j to now patch) i r rs e = advance-Steps i j to now patch r rs e
reduction-Edge (marks_flat now) i r rs e = mark-Steps i r now rs e

pub run : List Op → List Reduction → List Reduction
unfolding apply
run [] rs = rs
run (o ∷ os) rs = run os (apply o rs)

is_allowed-flat : (s t : ReductionState) → s ≡ flat → is_allowed s t ≡ false
unfolding is_allowed
is_allowed-flat s t h = rw h (ground arith)

flat-Edge : {r q : Reduction} → r.state ≡ flat → Edge r q → q ≡ r
flat-Edge h stays = refl
flat-Edge {r} {q} h (moves e) = cc (is_allowed-flat r.state q.state h, e)

-- A reduction that is flat is final: no later sequence of operations changes anything in its row.
pub run_flat :
    (os : List Op) (i : ℕ) (r : Reduction) (rs : List Reduction)
    → by_exit_intent i rs ≡ some r
    → r.state ≡ flat
    → by_exit_intent i (run os rs) ≡ some r
unfolding run
run_flat [] i r rs e h = e
run_flat (o ∷ os) i r rs e h =
    let (q, there, edge) = reduction-Edge o i r rs e in
    run_flat os i r (apply o rs) (there ∙ ap some (flat-Edge h edge)) h
