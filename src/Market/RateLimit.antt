-- ===== src/Market/RateLimit.antt =====
-- RateAwareScheduler of src/market/rate-aware-scheduler.ts: the sliding window over the starts of
-- history reads. `attempt` is one round of the loop of acquire, at the time that round reads; the
-- caller sleeps between rounds. Times are milliseconds.
mod Window
mod Waiting
mod Examples
use glitch_topstep.Prelude.{
  ◌>>=◌, ltb, leb, ◌==◌, if◌then◌else◌, ltb→lt, leb→le, ==_iff, Bool-cases, Option-cases, is_some,
  is_none, or_else, length, is_empty, length-append, some_of, some_inj, every, keep, find,
  length-keep-le, All, ℤ, pos, negsuc, pos_part, neg_part, sub_ℕ, ◌+ℤ◌, ◌-ℤ◌, ◌*ℤ◌, ◌≤ℤ◌, ◌<ℤ◌,
  ltb_ℤ, leb_ℤ, eqb_ℤ, max_ℤ, min_ℤ, +ℤ_parts, -ℤ_parts, eq_of_parts, int_laws, Number, nan,
  neg_infinity, pos_infinity, finite, is_finite, num_lt, num_eq, num_le, is_positive, ℕ, zero, suc,
  ◌+◌, ◌-◌, ◌*◌, ◌/◌, ◌≤◌, ◌<◌, min, max, ◌≡◌, refl, sym, ap, ◌∙◌, ◌≢◌, ◌↔◌, ◌⊎◌, inl, inr, Bool,
  true, false, not, ◌&&◌, ◌||◌, Option, none, some, List, [], ◌∷◌, ◌++◌, map, arith, ℕ_discrete,
}

abbrev pub budget_requests : ℕ
budget_requests = 50

abbrev pub window_ms : ℕ
window_ms = 30000

pub record RateLimiter : Type 0 where
  pub recent_starts_ms : List ℕ
  pub observed_peak_per_window : ℕ

pub fresh : RateLimiter
fresh = record { recent_starts_ms = []; observed_peak_per_window = 0 }

-- `while (starts.length > 0 && starts[0] <= atMs - windowMs) starts.shift();`
pub prune : ℕ → List ℕ → List ℕ
prune at [] = []
prune at (x ∷ xs) = let rest = prune at xs in if leb (x + window_ms) at then rest else x ∷ xs

pub record_start : ℕ → RateLimiter → RateLimiter
unfolding prune
record_start at l =
    let starts = prune at l.recent_starts_ms ++ at ∷ [] in
    record {
      recent_starts_ms = starts;
      observed_peak_per_window = max l.observed_peak_per_window (length starts);
    }

pub data Outcome : Type 0 where
  starts : Outcome
  sleeps : ℕ → Outcome
  -- No start is in the window and the headroom leaves none: the source sleeps for NaN.
  starved : Outcome

-- `Math.max(1, oldest + windowMs - atMs + 1)`, for the oldest start.
pub wait_ms : ℕ → List ℕ → Outcome
wait_ms at [] = starved
wait_ms at (oldest ∷ _) = sleeps (max 1 (oldest + window_ms + 1 - at))

pub attempt : ℕ → ℕ → RateLimiter → RateLimiter × Outcome
unfolding prune record_start wait_ms
attempt headroom at l =
    let pruned = record l { recent_starts_ms = prune at l.recent_starts_ms } in
    if ltb (length (prune at l.recent_starts_ms)) (budget_requests - headroom)
    then (record_start at pruned, starts)
    else (pruned, wait_ms at (prune at l.recent_starts_ms))

pub is_start : Outcome → Bool
is_start starts = true
is_start _ = false

-- When the sleep ends. A timer of NaN fires after one millisecond.
pub wake : ℕ → Outcome → ℕ
wake at (sleeps ms) = at + ms
wake at _ = at + 1

-- The loop of acquire for a caller that is alone, on fuel: the time of its start.
pub acquire : ℕ → ℕ → ℕ → RateLimiter → Option (ℕ × RateLimiter)
unfolding is_start wake
acquire zero headroom at l = none
acquire (suc n) headroom at l =
    let round = attempt headroom at l in
    let rest = acquire n headroom (wake at round.1) round.0 in
    if is_start round.1 then some (at, round.0) else rest

pub can_schedule : ℕ → ℕ → ℕ → RateLimiter → Bool
unfolding prune
can_schedule additional headroom at l =
    leb (length (prune at l.recent_starts_ms) + additional + headroom) budget_requests
