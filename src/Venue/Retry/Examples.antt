-- ===== src/Venue/Retry/Examples.antt =====
-- A call whose answers are lost.
use glitch_topstep.Venue.Circuit.{Endpoint, order_place, order_search, Breaker, is_mutation_path}
use glitch_topstep.Venue.Retry.{
  transport_error, answered, failed, Attempt, Outcome, returned, threw, attempts_allowed, post_from,
  post,
}
use glitch_topstep.Venue.Retry.Attempts.{is_exhausted, post-sent}
use glitch_topstep.Prelude.{ltb, if◌then◌else◌, ℕ, ◌+◌, ◌*◌, ◌≤◌, ◌≡◌, refl, true, false, none}

abbrev breaker : Breaker
breaker = record { failure_threshold = 5; cooldown_ms = 30000; families = λ f. none }

-- The transport fails twice before there is an answer.
abbrev attempts : ℕ → Attempt
attempts n = record {
  elapsed_before = 1000 * n;
  elapsed_inside = 1000 * n;
  now = 50000 + 1000 * n;
  response = if ltb n 2 then failed transport_error else answered;
}

abbrev ended : Endpoint → ℕ × Outcome
ended path = let (c, outcome) = post path 10000 false 3 attempts breaker in (c.sent, outcome)

read_test : ended order_search ≡ (3, returned)
unfolding post_from
read_test = refl

place_test : ended order_place ≡ (1, threw transport_error)
unfolding post_from
place_test = refl

post-sent_example :
    let (c, outcome) = post order_place 10000 false 3 attempts breaker in
    (is_exhausted outcome ≡ false)
    × (c.sent ≤ attempts_allowed false 3)
    × (is_mutation_path order_place ≡ true → c.sent ≤ 1)
post-sent_example = post-sent order_place 10000 false 3 attempts breaker
