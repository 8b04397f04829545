-- ===== src/Venue/Retry/Attempts.antt =====
-- How many requests one call sends.
use glitch_topstep.Venue.Circuit.{Endpoint, Breaker, is_mutation_path}
use glitch_topstep.Venue.Retry.{
  CallError, Response, gate_timed_out, answered, failed, Attempt, Call, Outcome, exhausted,
  try_attempt, should_retry_post, after_attempt, note_failure, post_from, attempts_allowed,
  first_call, post,
}
use glitch_topstep.Prelude.{
  leb, if-All, ℕ, zero, suc, ◌+◌, ◌≤◌, ◌<◌, ◌≡◌, refl, Bool, true, false, arith,
}

try_attempt-sent :
    (path : Endpoint) (deadline : ℕ) (a : Attempt) (c : Call)
    → (try_attempt path deadline a c).0.sent ≤ c.sent + 1
try_attempt-sent path deadline a c = ground arith

-- The requests of an attempt and of what follows it.
after-sent :
    (path : Endpoint) (attempt max_attempts bound : ℕ) (c noted : Call) (r : Response)
    (rest : Call × Outcome)
    → c.sent ≤ bound
    → noted.sent ≤ bound
    → rest.0.sent ≤ bound
    → (after_attempt path attempt max_attempts c noted r rest).0.sent ≤ bound
after-sent path attempt max_attempts bound c noted answered rest h hn hr = h
after-sent path attempt max_attempts bound c noted gate_timed_out rest h hn hr = h
after-sent path attempt max_attempts bound c noted (failed e) rest h hn hr = ground arith

post_from-sent :
    (path : Endpoint) (deadline max_attempts : ℕ) (attempts : ℕ → Attempt) (rounds attempt : ℕ)
    (c : Call)
    → (post_from path deadline max_attempts attempts rounds attempt c).0.sent ≤ c.sent + rounds
unfolding post_from
post_from-sent path deadline max_attempts attempts zero attempt c = omega arith
post_from-sent path deadline max_attempts attempts (suc rounds) attempt c =
    let a = attempts attempt in
    let tried = try_attempt path deadline a c in
    let noted = note_failure path a.now tried.0 in
    let rest = post_from path deadline max_attempts attempts rounds (attempt + 1) noted in
    let one = try_attempt-sent path deadline a c in
    if-All (λ (r : Call × Outcome). r.0.sent ≤ c.sent + suc rounds) (leb deadline a.elapsed_before)
      _ _ (omega arith)
      (after-sent path attempt max_attempts (c.sent + suc rounds) tried.0 noted tried.1 rest
        (omega (arith, one)) (omega (arith, one))
        (omega (
          arith,
          one,
          post_from-sent path deadline max_attempts attempts rounds (attempt + 1) noted,
        )))

mutation_final :
    (path : Endpoint) (e : CallError) (attempt max_attempts : ℕ)
    → is_mutation_path path ≡ true
    → should_retry_post path e attempt max_attempts ≡ false
unfolding should_retry_post
mutation_final path e attempt max_attempts h = ground arith

after_mutation :
    (path : Endpoint) (attempt max_attempts bound : ℕ) (c noted : Call) (r : Response)
    (rest : Call × Outcome)
    → is_mutation_path path ≡ true
    → c.sent ≤ bound
    → noted.sent ≤ bound
    → (after_attempt path attempt max_attempts c noted r rest).0.sent ≤ bound
after_mutation path attempt max_attempts bound c noted answered rest m h hn = h
after_mutation path attempt max_attempts bound c noted gate_timed_out rest m h hn = h
after_mutation path attempt max_attempts bound c noted (failed e) rest m h hn =
    ground (arith, mutation_final path e attempt max_attempts m)

post_from_mutation :
    (path : Endpoint) (deadline max_attempts : ℕ) (attempts : ℕ → Attempt) (rounds attempt : ℕ)
    (c : Call)
    → is_mutation_path path ≡ true
    → (post_from path deadline max_attempts attempts rounds attempt c).0.sent ≤ c.sent + 1
unfolding post_from
post_from_mutation path deadline max_attempts attempts zero attempt c m = omega arith
post_from_mutation path deadline max_attempts attempts (suc rounds) attempt c m =
    let a = attempts attempt in
    let tried = try_attempt path deadline a c in
    let noted = note_failure path a.now tried.0 in
    let one = try_attempt-sent path deadline a c in
    if-All (λ (r : Call × Outcome). r.0.sent ≤ c.sent + 1) (leb deadline a.elapsed_before) _ _
      (omega arith)
      (after_mutation path attempt max_attempts (c.sent + 1) tried.0 noted tried.1 _ m one one)

abbrev pub is_exhausted : Outcome → Bool
is_exhausted exhausted = true
is_exhausted _ = false

after-ended :
    (path : Endpoint) (attempt max_attempts : ℕ) (c noted : Call) (r : Response)
    (rest : Call × Outcome)
    → (attempt + 1 < max_attempts → is_exhausted rest.1 ≡ false)
    → is_exhausted (after_attempt path attempt max_attempts c noted r rest).1 ≡ false
after-ended path attempt max_attempts c noted answered rest h = refl
after-ended path attempt max_attempts c noted gate_timed_out rest h = refl
after-ended path attempt max_attempts c noted (failed e) rest h = ground arith

post_from-ended :
    (path : Endpoint) (deadline max_attempts : ℕ) (attempts : ℕ → Attempt) (rounds attempt : ℕ)
    (c : Call)
    → attempt < max_attempts
    → max_attempts ≤ attempt + rounds
    → is_exhausted (post_from path deadline max_attempts attempts rounds attempt c).1 ≡ false
unfolding post_from
post_from-ended path deadline max_attempts attempts zero attempt c h enough = absurd (omega arith)
post_from-ended path deadline max_attempts attempts (suc rounds) attempt c h enough =
    let a = attempts attempt in
    let tried = try_attempt path deadline a c in
    let noted = note_failure path a.now tried.0 in
    if-All (λ (r : Call × Outcome). is_exhausted r.1 ≡ false) (leb deadline a.elapsed_before) _ _
      refl
      (after-ended path attempt max_attempts tried.0 noted tried.1 _ (λ more.
        post_from-ended path deadline max_attempts attempts rounds (attempt + 1) noted more
          (omega arith)))

some_allowed : (storm : Bool) (delays : ℕ) → 0 < attempts_allowed storm delays
some_allowed storm delays = ground arith

-- Whatever the network, the gate and the clock do, a call ends: it returns or throws, and it sends no
-- more requests than there are attempts. One that changes something at the venue, such as the
-- placing of an order, sends at most one, so that an order whose answer is lost is never placed again.
pub post-sent :
    (path : Endpoint) (deadline : ℕ) (storm : Bool) (delays : ℕ) (attempts : ℕ → Attempt)
    (b : Breaker)
    → let (c, outcome) = post path deadline storm delays attempts b in
      (is_exhausted outcome ≡ false)
      × (c.sent ≤ attempts_allowed storm delays)
      × (is_mutation_path path ≡ true → c.sent ≤ 1)
post-sent path deadline storm delays attempts b =
    let most = attempts_allowed storm delays in
    let start = first_call b in
    (
      post_from-ended path deadline most attempts most 0 start (some_allowed storm delays)
          (omega arith),
      omega (arith, post_from-sent path deadline most attempts most 0 start),
      λ m. omega (arith, post_from_mutation path deadline most attempts most 0 start m),
    )
