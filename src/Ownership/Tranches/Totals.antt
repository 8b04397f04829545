-- ===== src/Ownership/Tranches/Totals.antt =====
-- The contracts of the tranches add up.
use glitch_topstep.Ownership.Tranches.{
  Entry, has_live_protective_order, insert, sort, reverse_onto, unprotected, claim_order, claims,
  lookup,
}
use glitch_topstep.Prelude.{
  ◌==◌, if◌then◌else◌, Bool-cases, is_some, or_else, keep, All, ℕ, ◌+◌, ◌-◌, ◌≤◌, ◌<◌, min, ◌≡◌,
  refl, ◌∙◌, inl, inr, Bool, true, not, Option, none, List, [], ◌∷◌, ◌++◌, arith,
}

unfoldable pub total : (Entry → ℕ) → List Entry → ℕ
total f [] = 0
total f (x ∷ xs) = f x + total f xs

pub total-append :
    (f : Entry → ℕ) (xs ys : List Entry) → total f (xs ++ ys) ≡ total f xs + total f ys
unfolding total
total-append f [] ys = omega arith
total-append f (x ∷ xs) ys = omega (arith, total-append f xs ys)

pub total-keep :
    (f : Entry → ℕ) (p : Entry → Bool) (xs : List Entry)
    → total f (keep (λ e. not (p e)) xs) + total f (keep p xs) ≡ total f xs
unfolding total
total-keep f p [] = omega arith
total-keep f p (x ∷ xs) = elim (Bool-cases (p x)) [
  | inl e ↦ rw e (omega (arith, total-keep f p xs))
  | inr e ↦ rw e (omega (arith, total-keep f p xs))
]

total-reverse_onto :
    (f : Entry → ℕ) (xs done : List Entry)
    → total f (reverse_onto xs done) ≡ total f xs + total f done
unfolding total reverse_onto
total-reverse_onto f [] done = omega arith
total-reverse_onto f (x ∷ xs) done = omega (arith, total-reverse_onto f xs (x ∷ done))

total-insert :
    (f : Entry → ℕ) (created : ℕ → Option ℕ) (x : Entry) (xs : List Entry)
    → total f (insert created x xs) ≡ f x + total f xs
unfolding total insert
total-insert f created x [] = omega arith
total-insert f created x (y ∷ ys) = ground (arith, total-insert f created x ys)

pub total-sort :
    (f : Entry → ℕ) (created : ℕ → Option ℕ) (xs : List Entry)
    → total f (sort created xs) ≡ total f xs
unfolding total sort
total-sort f created [] = refl
total-sort f created (x ∷ xs) =
    omega (arith, total-insert f created x (sort created xs), total-sort f created xs)

pub total-unprotected :
    (f : Entry → ℕ) (xs : List Entry)
    → total f (unprotected xs) + total f (keep has_live_protective_order xs) ≡ total f xs
unfolding unprotected total
total-unprotected f xs = omega (
  arith,
  total-keep f has_live_protective_order xs,
  total-reverse_onto f (keep (λ e. not (has_live_protective_order e)) xs) [],
)

total-split :
    (f : Entry → ℕ) (p : Entry → Bool) (first xs : List Entry)
    → total f (first ++ (keep (λ e. not (p e)) xs ++ keep p xs)) ≡ total f first + total f xs
total-split f p first xs = omega (
  arith,
  total-append f first (keep (λ e. not (p e)) xs ++ keep p xs),
  total-append f (keep (λ e. not (p e)) xs) (keep p xs),
  total-keep f p xs,
)

pub total-claim_order :
    (f : Entry → ℕ) (targeted : ℕ → Bool) (xs : List Entry)
    → total f (claim_order targeted xs) ≡ total f xs
unfolding claim_order
total-claim_order f targeted xs =
    total-split f (λ e. targeted e.intent_id) (keep has_live_protective_order xs) (unprotected xs)
    ∙ omega (arith, total-unprotected f xs)

-- How many entries have the intent.
unfoldable pub occurrences : ℕ → List Entry → ℕ
unfolding total
occurrences i xs = total (λ e. if e.intent_id == i then 1 else 0) xs

lookup-absent : (i u : ℕ) (es : List Entry) → occurrences i es ≡ 0 → lookup i (claims u es) ≡ none
unfolding occurrences total lookup claims
lookup-absent i u [] h = refl
lookup-absent i u (e ∷ es) h =
    ground (arith, lookup-absent i (u - min e.effective_filled_quantity u) es)

lookup-present :
    (i u : ℕ) (es : List Entry) → 0 < occurrences i es → is_some (lookup i (claims u es)) ≡ true
unfolding occurrences total lookup claims
lookup-present i u [] h = absurd (omega arith)
lookup-present i u (e ∷ es) h =
    ground (arith, lookup-present i (u - min e.effective_filled_quantity u) es)

unfoldable pub held : List (ℕ × ℕ) → Entry → ℕ
held rows e = or_else (lookup e.intent_id rows) 0

-- A row in front changes nothing for the entries that have one behind.
held-cons :
    (row : ℕ × ℕ) (rows : List (ℕ × ℕ)) (e : Entry)
    → is_some (lookup e.intent_id rows) ≡ true
    → held (row ∷ rows) e ≡ held rows e
unfolding held lookup
held-cons row rows e h = ground arith

held-head :
    (e : Entry) (claimed : ℕ) (rows : List (ℕ × ℕ))
    → lookup e.intent_id rows ≡ none
    → held ((e.intent_id, claimed) ∷ rows) e ≡ claimed
unfolding held lookup
held-head e claimed rows h = rw h (ground arith)

All-present :
    (u : ℕ) (es xs : List Entry)
    → All (λ x. 0 < occurrences x.intent_id es) xs
    → All (λ x. is_some (lookup x.intent_id (claims u es)) ≡ true) xs
All-present u es [] a = tt
All-present u es (x ∷ xs) a = (lookup-present x.intent_id u es a.0, All-present u es xs a.1)

total-cons :
    (row : ℕ × ℕ) (rows : List (ℕ × ℕ)) (xs : List Entry)
    → All (λ x. is_some (lookup x.intent_id rows) ≡ true) xs
    → total (held (row ∷ rows)) xs ≡ total (held rows) xs
unfolding total
total-cons row rows [] a = refl
total-cons row rows (x ∷ xs) a = omega (arith, held-cons row rows x a.0, total-cons row rows xs a.1)

occurrences-once :
    (e : Entry) (es : List Entry)
    → ((i : ℕ) → occurrences i (e ∷ es) ≤ 1)
    → (occurrences e.intent_id es ≡ 0) × ((i : ℕ) → occurrences i es ≤ 1)
unfolding occurrences total
occurrences-once e es h = (ground (arith, h e.intent_id), λ i. ground (arith, h i))

occurrences-cons : (i : ℕ) (e : Entry) (es : List Entry) → occurrences i es ≤ occurrences i (e ∷ es)
unfolding occurrences total
occurrences-cons i e es = ground arith

occurrences-here : (e : Entry) (es : List Entry) → 0 < occurrences e.intent_id (e ∷ es)
unfolding occurrences total
occurrences-here e es = ground arith

All-occurs-cons :
    (e : Entry) (es xs : List Entry)
    → All (λ x. 0 < occurrences x.intent_id es) xs
    → All (λ x. 0 < occurrences x.intent_id (e ∷ es)) xs
All-occurs-cons e es [] a = tt
All-occurs-cons e es (x ∷ xs) a =
    (omega (arith, a.0, occurrences-cons x.intent_id e es), All-occurs-cons e es xs a.1)

All-occurs : (es : List Entry) → All (λ x. 0 < occurrences x.intent_id es) es
All-occurs [] = tt
All-occurs (e ∷ es) = (occurrences-here e es, All-occurs-cons e es es (All-occurs es))

All-front : (P : Entry → Type 0) (front back : List Entry) → All P (front ++ back) → All P front
All-front P [] back a = tt
All-front P (x ∷ front) back a = (a.0, All-front P front back a.1)

-- The entries in front hold all there is, up to what they filled.
pub total-claims :
    (u : ℕ) (front back : List Entry)
    → ((i : ℕ) → occurrences i (front ++ back) ≤ 1)
    → total (held (claims u (front ++ back))) front
      ≡ min (total (λ e. e.effective_filled_quantity) front) u
unfolding claims total
total-claims u [] back h = omega arith
total-claims u (e ∷ front) back h =
    let rest = u - min e.effective_filled_quantity u in
    let claimed = min e.effective_filled_quantity u in
    let once = occurrences-once e (front ++ back) h in
    omega (
      arith,
      held-head e claimed (claims rest (front ++ back))
          (lookup-absent e.intent_id rest (front ++ back) once.0),
      total-cons (e.intent_id, claimed) (claims rest (front ++ back)) front
          (All-front _ front back
            (All-present rest (front ++ back) (front ++ back) (All-occurs (front ++ back)))),
      total-claims rest front back once.1,
    )
