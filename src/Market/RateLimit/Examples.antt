-- ===== src/Market/RateLimit/Examples.antt =====
-- A limiter with a headroom of 48, so that two reads start in a window.
use glitch_topstep.Market.RateLimit.{
  RateLimiter, fresh, prune, record_start, sleeps, wait_ms, attempt, acquire, is_start, wake,
}
use glitch_topstep.Market.RateLimit.Window.{begins, tries, count, logged, Run-count}
use glitch_topstep.Market.RateLimit.Waiting.{acquire-is_some}
use glitch_topstep.Prelude.{◌≤◌, ◌≡◌, refl, true, some, is_some, [], ◌∷◌, arith}

abbrev full : RateLimiter
full = record { recent_starts_ms = 100 ∷ 200 ∷ []; observed_peak_per_window = 2 }

third_waits : (attempt 48 300 full).1 ≡ sleeps 29801
unfolding attempt prune record_start wait_ms
third_waits = refl

third_time :
    acquire 3 48 300 full
    ≡ some (30101, record { recent_starts_ms = 200 ∷ 30101 ∷ []; observed_peak_per_window = 2 })
unfolding acquire is_start wake attempt prune record_start wait_ms
third_time = refl

Run-count_example : (count 400 (200 ∷ 100 ∷ []) ≤ 2) × (2 ≤ 2)
unfolding attempt prune record_start wait_ms fresh logged
Run-count_example = Run-count {headroom = 48} 400 (
    tries 48 300
      (tries 48 200 (tries 48 100 begins (omega arith) (omega arith)) (omega arith) (omega arith))
      (omega arith) (omega arith))

acquire-is_some_example : is_some (acquire 3 48 300 full) ≡ true
unfolding prune
acquire-is_some_example = acquire-is_some 3 48 300 full (omega arith) (omega arith)
