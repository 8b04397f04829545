-- ===== src/Market/RateLimit/Window.antt =====
-- No trailing window holds more starts than the budget less the headroom.
use glitch_topstep.Market.RateLimit.{
  Outcome, budget_requests, window_ms, RateLimiter, fresh, prune, record_start, starts, wait_ms,
  attempt,
}
use glitch_topstep.Prelude.{
  ltb, leb, if◌then◌else◌, ltb→lt, Bool-cases, length, length-append, All, ℕ, suc, ◌+◌, ◌-◌, ◌≤◌,
  ◌<◌, ◌≡◌, refl, inl, inr, Bool, ◌&&◌, List, [], ◌∷◌, ◌++◌, arith,
}

-- Whether a start lies in the window that ends at the time.
abbrev pub is_within : ℕ → ℕ → Bool
is_within t x = leb x t && ltb t (x + window_ms)

pub count : ℕ → List ℕ → ℕ
count t [] = 0
count t (x ∷ xs) = if is_within t x then suc (count t xs) else count t xs

-- The starts so far, the last one first: each found the window below the limit.
pub data Budgeted (limit : ℕ) : List ℕ → Type 0 where
  no_start : Budgeted limit []
  and_start :
      {at : ℕ} {log : List ℕ}
      → All (λ x. x ≤ at) log
      → count at (at ∷ log) ≤ limit
      → Budgeted limit log
      → Budgeted limit (at ∷ log)

count-le : (t e : ℕ) (log : List ℕ) → e ≤ t → All (λ x. x ≤ e) log → count t log ≤ count e log
unfolding count
count-le t e [] h a = omega arith
count-le t e (x ∷ log) h a = ground (arith, count-le t e log h a.1)

count-Budgeted : {limit : ℕ} {log : List ℕ} → Budgeted limit log → (t : ℕ) → count t log ≤ limit
unfolding count
count-Budgeted no_start t = omega arith
count-Budgeted {limit} (and_start {at} {log} a c b) t =
    ground (arith, count-Budgeted b t, c, count-le t at log _ a)

prune-prune : (at now : ℕ) (xs : List ℕ) → at ≤ now → prune now (prune at xs) ≡ prune now xs
unfolding prune
prune-prune at now [] h = refl
prune-prune at now (x ∷ xs) h = ground (arith, prune-prune at now xs h)

prune-snoc :
    (now at : ℕ) (xs : List ℕ)
    → length (prune now xs) + length (prune now (at ∷ [])) ≤ length (prune now (xs ++ at ∷ []))
unfolding prune
prune-snoc now at [] = omega arith
prune-snoc now at (x ∷ xs) = ground (arith, prune-snoc now at xs, length-append xs (at ∷ []))

unfoldable pub logged : Outcome → ℕ → List ℕ → List ℕ
logged starts at log = at ∷ log
logged _ at log = log

-- A limiter, the clock and the starts so far, after rounds of acquire and reads of the window, each
-- round with at least the headroom.
pub data Run (headroom : ℕ) : RateLimiter → ℕ → List ℕ → Type 0 where
  begins : Run headroom fresh 0 []
  tries :
      {l : RateLimiter} {clock : ℕ} {log : List ℕ} (k at : ℕ)
      → Run headroom l clock log
      → clock ≤ at
      → headroom ≤ k
      → Run headroom (attempt k at l).0 at (logged (attempt k at l).1 at log)
  reads :
      {l : RateLimiter} {clock : ℕ} {log : List ℕ} (at : ℕ)
      → Run headroom l clock log
      → clock ≤ at
      → Run headroom (record l { recent_starts_ms = prune at l.recent_starts_ms }) at log

record Inv (headroom : ℕ) (l : RateLimiter) (clock : ℕ) (log : List ℕ) : Type 0 where
  counted : (now : ℕ) → clock ≤ now → count now log ≤ length (prune now l.recent_starts_ms)
  budgeted : Budgeted (budget_requests - headroom) log
  past : All (λ x. x ≤ clock) log
  peak : l.observed_peak_per_window ≤ budget_requests - headroom

All-le : (a b : ℕ) (xs : List ℕ) → a ≤ b → All (λ x. x ≤ a) xs → All (λ x. x ≤ b) xs
All-le a b [] h p = tt
All-le a b (x ∷ xs) h p = (omega arith, All-le a b xs h p.1)

read-Inv :
    {headroom clock : ℕ} {l : RateLimiter} {log : List ℕ} (at : ℕ)
    → Inv headroom l clock log
    → clock ≤ at
    → Inv headroom (record l { recent_starts_ms = prune at l.recent_starts_ms }) at log
read-Inv {headroom} {clock} {l} {log} at v h = record {
  counted = λ now k. rw (prune-prune at now l.recent_starts_ms k) (v.counted now (omega arith));
  budgeted = v.budgeted;
  past = All-le clock at log h v.past;
  peak = v.peak;
}

count-cons :
    (now at : ℕ) (log : List ℕ) (n : ℕ)
    → at ≤ now
    → count now log ≤ n
    → count now (at ∷ log) ≤ n + length (prune now (at ∷ []))
unfolding count prune
count-cons now at log n h k = ground arith

count_self : (at : ℕ) (log : List ℕ) → count at (at ∷ log) ≤ suc (count at log)
unfolding count
count_self at log = ground arith

start-Inv :
    {headroom at : ℕ} {l : RateLimiter} {log : List ℕ}
    → Inv headroom l at log
    → length (prune at l.recent_starts_ms) < budget_requests - headroom
    → Inv headroom (record_start at l) at (at ∷ log)
unfolding record_start
start-Inv {headroom} {at} {l} {log} v h = record {
  counted = λ now k.
      let c : count now log ≤ length (prune now (prune at l.recent_starts_ms)) =
        rw (prune-prune at now l.recent_starts_ms k) (v.counted now k) in
      omega (arith, count-cons now at log _ k c, prune-snoc now at (prune at l.recent_starts_ms));
  budgeted =
      and_start v.past (omega (arith, count_self at log, v.counted at (omega arith))) v.budgeted;
  past = (omega arith, v.past);
  peak = omega (arith, v.peak, length-append (prune at l.recent_starts_ms) (at ∷ []));
}

logged-wait : (at : ℕ) (xs log : List ℕ) → logged (wait_ms at xs) at log ≡ log
unfolding logged wait_ms
logged-wait at [] log = refl
logged-wait at (x ∷ xs) log = refl

attempt-Inv :
    {headroom clock : ℕ} {l : RateLimiter} {log : List ℕ} (k at : ℕ)
    → Inv headroom l clock log
    → clock ≤ at
    → headroom ≤ k
    → Inv headroom (attempt k at l).0 at (logged (attempt k at l).1 at log)
unfolding attempt logged
attempt-Inv {headroom} {clock} {l} {log} k at v h g =
    let read = read-Inv at v h in
    elim (Bool-cases (ltb (length (prune at l.recent_starts_ms)) (budget_requests - k))) [
      | inl e ↦ rw e (
          start-Inv read
            (rw (prune-prune at at l.recent_starts_ms (omega arith)) (omega (arith, ltb→lt _ _ e))))
      | inr e ↦ rw (e, logged-wait at (prune at l.recent_starts_ms) log) read
    ]

Run-Inv :
    {headroom clock : ℕ} {l : RateLimiter} {log : List ℕ}
    → Run headroom l clock log
    → Inv headroom l clock log
unfolding fresh count
Run-Inv begins = record {
  counted = λ now k. omega arith;
  budgeted = no_start;
  past = tt;
  peak = omega arith;
}
Run-Inv (tries k at r h g) = attempt-Inv k at (Run-Inv r) h g
Run-Inv (reads at r h) = read-Inv at (Run-Inv r) h

-- Whatever the callers and the clock do, as long as the clock does not go back and every call asks
-- for the headroom: no window of 30 seconds, wherever it ends, holds more starts than the budget of
-- 50 less the headroom, and the peak that the limiter reports is no more than that either.
pub Run-count :
    {headroom clock : ℕ} {l : RateLimiter} {log : List ℕ} (t : ℕ)
    → Run headroom l clock log
    → (count t log ≤ budget_requests - headroom)
      × (l.observed_peak_per_window ≤ budget_requests - headroom)
Run-count t r = let v = Run-Inv r in (count-Budgeted v.budgeted t, v.peak)
