-- ===== src/Market/RateLimit/Waiting.antt =====
-- A call that is made to wait wakes up to a window with a place more.
use glitch_topstep.Market.RateLimit.{
  Outcome, acquire, is_start, wake, budget_requests, window_ms, RateLimiter, prune, starts, sleeps,
  starved, wait_ms, attempt,
}
use glitch_topstep.Prelude.{
  ltb, Bool-cases, length, ℕ, suc, ◌+◌, ◌-◌, ◌≤◌, ◌<◌, ◌≡◌, refl, ap, ◌∙◌, inl, inr, true, ◌⊎◌,
  is_some, zero, List, [], ◌∷◌, arith,
}

length-prune : (at : ℕ) (xs : List ℕ) → length (prune at xs) ≤ length xs
unfolding prune
length-prune at [] = omega arith
length-prune at (x ∷ xs) = ground (arith, length-prune at xs)

prune-oldest :
    (at x : ℕ) (xs : List ℕ) → x + window_ms ≤ at → length (prune at (x ∷ xs)) < length (x ∷ xs)
unfolding prune
prune-oldest at x xs h = ground (arith, length-prune at xs)

ms_of : Outcome → ℕ
ms_of (sleeps ms) = ms
ms_of _ = 0

wait-prune :
    (at ms : ℕ) (xs : List ℕ)
    → wait_ms at xs ≡ sleeps ms
    → (0 < ms) × (length (prune (at + ms) xs) < length xs)
unfolding wait_ms ms_of
wait-prune at ms [] h = cc h
wait-prune at ms (x ∷ xs) h =
    (omega (arith, ap ms_of h), prune-oldest (at + ms) x xs (omega (arith, ap ms_of h)))

wait-starved : (at : ℕ) (xs : List ℕ) → wait_ms at xs ≡ starved → length xs ≡ 0
unfolding wait_ms
wait-starved at [] h = refl
wait-starved at (x ∷ xs) h = cc h

attempt-starts :
    (k at : ℕ) (l : RateLimiter)
    → length (prune at l.recent_starts_ms) < budget_requests - k
    → (attempt k at l).1 ≡ starts
unfolding attempt
attempt-starts k at l h = ground arith

attempt-waits :
    (k at : ℕ) (l : RateLimiter)
    → ((attempt k at l).1 ≡ starts)
      ⊎ (((attempt k at l).1 ≡ wait_ms at (prune at l.recent_starts_ms))
          × ((attempt k at l).0.recent_starts_ms ≡ prune at l.recent_starts_ms))
unfolding attempt
attempt-waits k at l =
    elim (Bool-cases (ltb (length (prune at l.recent_starts_ms)) (budget_requests - k))) [
      | inl e ↦ inl (rw e refl)
      | inr e ↦ inr (rw e refl, rw e refl)
    ]

acquire_starts :
    (n k at : ℕ) (l : RateLimiter)
    → (attempt k at l).1 ≡ starts
    → is_some (acquire (suc n) k at l) ≡ true
unfolding acquire is_start
acquire_starts n k at l e = rw e refl

acquire_waits :
    (n k at : ℕ) (l : RateLimiter)
    → is_some (acquire n k (wake at (attempt k at l).1) (attempt k at l).0) ≡ true
    → is_some (acquire (suc n) k at l) ≡ true
unfolding acquire
acquire_waits n k at l e = elim (Bool-cases (is_start (attempt k at l).1)) [
  | inl s ↦ rw s refl
  | inr s ↦ rw s e
]

wake-prune :
    (at ms : ℕ) (o : Outcome) (rest xs : List ℕ)
    → o ≡ sleeps ms
    → rest ≡ xs
    → wait_ms at xs ≡ sleeps ms
    → length (prune (wake at o) rest) < length xs
unfolding wake
wake-prune at ms o rest xs e k h = rw (e, k) (wait-prune at ms xs h).1

Outcome-cases : (o : Outcome) → (o ≡ starts) ⊎ ((ms : ℕ) × (o ≡ sleeps ms)) ⊎ (o ≡ starved)
Outcome-cases starts = inl refl
Outcome-cases (sleeps ms) = inr (inl (ms, refl))
Outcome-cases starved = inr (inr refl)

-- A caller that is alone, and leaves room for one start, always gets it: one round for each start
-- that the window holds and one more are enough, whatever the starts and the time.
pub acquire-is_some :
    (n k at : ℕ) (l : RateLimiter)
    → k < budget_requests
    → length (prune at l.recent_starts_ms) < n
    → is_some (acquire n k at l) ≡ true
acquire-is_some zero k at l room fuel = absurd (omega arith)
acquire-is_some (suc n) k at l room fuel = elim (attempt-waits k at l) [
  | inl e ↦ acquire_starts n k at l e
  | inr (e, kept) ↦ elim (Outcome-cases (wait_ms at (prune at l.recent_starts_ms))) [
    | inl s ↦ acquire_starts n k at l (e ∙ s)
    | inr (inl (ms, s)) ↦ acquire_waits n k at l (
        acquire-is_some n k (wake at (attempt k at l).1) (attempt k at l).0 room
          (omega (arith, wake-prune at ms _ _ _ (e ∙ s) kept s)))
    | inr (inr s) ↦
        acquire_starts n k at l
          (attempt-starts k at l (omega (arith, wait-starved at (prune at l.recent_starts_ms) s)))
  ]
]
