-- ===== src/Service/Priority.antt =====
-- PRIORITY_ORDER of src/service/task-scheduler.ts, and the selection loop that TaskScheduler and
-- RestConcurrencyGate (src/projectx/rest-concurrency.ts) both write out over it.
use mathlib.Core.List.{append_assoc, append-nil}
use glitch_topstep.Prelude.{
  ltb, if◌then◌else◌, ltb→lt, Bool-cases, length, length-append, All, ℕ, zero, suc, ◌+◌, ◌≤◌, ◌<◌,
  ◌≡◌, refl, sym, ◌∙◌, inl, inr, Option, none, some, List, [], ◌∷◌, ◌++◌, arith,
}

pub data TaskPriority : Type 0 where
  critical_reconcile market_recovery market_observation order_flow history_sync : TaskPriority

-- `PRIORITY_ORDER.indexOf(priority)`
unfoldable pub rank : TaskPriority → ℕ
rank critical_reconcile = 0
rank market_recovery = 1
rank market_observation = 2
rank order_flow = 3
rank history_sync = 4

module _ {ℓ} {A : Type ℓ} (rank_of : A → ℕ) where
  -- `for (i = ...) if (rank < bestRank) { bestRank = rank; best = i; }`
  best_loop : ℕ → ℕ → ℕ → List A → ℕ
  best_loop best best_rank i [] = best
  best_loop best best_rank i (x ∷ xs) =
      best_loop (if ltb (rank_of x) best_rank then i else best)
        (if ltb (rank_of x) best_rank then rank_of x else best_rank) (suc i) xs

  -- The index that the loop starts at and the scan of the rest of the array.
  best_index : List A → ℕ
  unfolding best_loop
  best_index [] = 0
  best_index (x ∷ xs) = best_loop 0 (rank_of x) 1 xs

module _ {ℓ} {A : Type ℓ} where
  -- `array.splice(index, 1)[0]`, with the array that is left.
  unfoldable pub take_at : ℕ → List A → Option (A × List A)
  take_at i [] = none
  take_at zero (x ∷ xs) = some (x, xs)
  take_at (suc i) (x ∷ xs) = elim (take_at i xs) [
    | none ↦ none
    | some (y, rest) ↦ some (y, x ∷ rest)
  ]

module _ {ℓ} {A : Type ℓ} (rank_of : A → ℕ) where
  -- `array.splice(best, 1)[0]`
  unfoldable pub take_best : List A → Option (A × List A)
  unfolding best_index take_at
  take_best xs = take_at (best_index rank_of xs) xs

  -- The entry of lowest rank, the first of those, and the others in their order.
  abbrev pub IsBest : List A → A → List A → Type ℓ
  IsBest xs w rest =
      (front : List A) × (back : List A) × (xs ≡ front ++ w ∷ back)
      × (rest ≡ front ++ back)
      × All (λ x. rank_of w < rank_of x) front
      × All (λ x. rank_of w ≤ rank_of x) back

  take_at-middle :
      (front : List A) (w : A) (back : List A)
      → take_at (length front) (front ++ w ∷ back) ≡ some (w, front ++ back)
  unfolding take_at
  take_at-middle [] w back = refl
  take_at-middle (x ∷ front) w back = rw (take_at-middle front w back, take_at) refl

  All-raise :
      (m n : ℕ) (xs : List A) → m < n → All (λ x. n ≤ rank_of x) xs → All (λ x. m < rank_of x) xs
  All-raise m n [] h a = tt
  All-raise m n (x ∷ xs) h a = (omega arith, All-raise m n xs h a.1)

  All-raise_lt :
      (m n : ℕ) (xs : List A) → m < n → All (λ x. n < rank_of x) xs → All (λ x. m < rank_of x) xs
  All-raise_lt m n [] h a = tt
  All-raise_lt m n (x ∷ xs) h a = (omega arith, All-raise_lt m n xs h a.1)

  All-append :
      (m : ℕ) (xs ys : List A)
      → All (λ x. m < rank_of x) xs
      → All (λ x. m < rank_of x) ys
      → All (λ x. m < rank_of x) (xs ++ ys)
  All-append m [] ys a b = b
  All-append m (x ∷ xs) ys a b = (a.0, All-append m xs ys a.1 b)

  All-append_le :
      (m : ℕ) (xs ys : List A)
      → All (λ x. m ≤ rank_of x) xs
      → All (λ x. m ≤ rank_of x) ys
      → All (λ x. m ≤ rank_of x) (xs ++ ys)
  All-append_le m [] ys a b = b
  All-append_le m (x ∷ xs) ys a b = (a.0, All-append_le m xs ys a.1 b)

  abbrev Takes : ℕ → List A → Type ℓ
  Takes i ys = (v : A) × (rest : List A) × (take_at i ys ≡ some (v, rest)) × IsBest ys v rest

  -- The loop's invariant: `best` is the index of `w`, and `i` that of the entry after `back`.
  best_loop-Takes :
      (front : List A) (w : A) (back xs : List A) (best r i : ℕ) (ys : List A)
      → best ≡ length front
      → r ≡ rank_of w
      → i ≡ length front + 1 + length back
      → ys ≡ front ++ w ∷ (back ++ xs)
      → All (λ x. rank_of w < rank_of x) front
      → All (λ x. rank_of w ≤ rank_of x) back
      → Takes (best_loop rank_of best r i xs) ys
  unfolding best_loop
  best_loop-Takes front w back [] best r i ys eb er ei ey a b = (
    w,
    front ++ back,
    rw (eb, ey, append-nil) (take_at-middle front w back),
    (front, back, rw (ey, append-nil) refl, refl, a, b),
  )
  best_loop-Takes front w back (x ∷ xs) best r i ys eb er ei ey a b =
      elim (Bool-cases (ltb (rank_of x) r)) [
        | inl e ↦ rw e (
            best_loop-Takes (front ++ w ∷ back) x [] xs i (rank_of x) (suc i) ys
              (omega (arith, length-append front (w ∷ back))) refl
              (omega (arith, length-append front (w ∷ back)))
              (ey ∙ sym (append_assoc front (w ∷ back) (x ∷ xs)))
              (All-append (rank_of x) front (w ∷ back)
                (All-raise_lt (rank_of x) (rank_of w) front (ground (arith, ltb→lt _ _ e)) a)
                (
                  ground (arith, ltb→lt _ _ e),
                  All-raise (rank_of x) (rank_of w) back (ground (arith, ltb→lt _ _ e)) b,
                ))
              tt)
        | inr e ↦ rw e (
            best_loop-Takes front w (back ++ x ∷ []) xs best r (suc i) ys eb er
              (omega (arith, length-append back (x ∷ []))) (rw (append_assoc back (x ∷ []) xs) ey) a
              (All-append_le (rank_of w) back (x ∷ []) b (ground arith, tt)))
      ]

  -- A queue that is not empty always yields its best entry.
  pub take_best-IsBest :
      (x : A) (xs : List A)
      → (v : A) × (rest : List A) × (take_best (x ∷ xs) ≡ some (v, rest)) × IsBest (x ∷ xs) v rest
  unfolding take_best best_index
  take_best-IsBest x xs =
      best_loop-Takes [] x [] xs 0 (rank_of x) 1 (x ∷ xs) refl refl refl refl tt tt
