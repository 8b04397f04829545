-- ===== src/Venue/Retry.antt =====
-- src/projectx/retry-policy.ts, and post of src/projectx/client.ts: a call and its retries. What the
-- network, the gate and the clock do in one attempt is given as a record. A call tells how many
-- requests it sent. Delays, diagnostics and the text of errors are left out.
pub mod Attempts
mod Examples
use glitch_topstep.Venue.Circuit.{
  Endpoint, Breaker, is_mutation_path, is_open, record_success, record_failure,
}
use glitch_topstep.Prelude.{
  ◌>>=◌, ltb, leb, ◌==◌, if◌then◌else◌, ltb→lt, leb→le, ==_iff, Bool-cases, and_left, and_right,
  Option-cases, is_some, is_none, or_else, length, is_empty, length-append, some_of, some_inj,
  every, keep, find, length-keep-le, All, All-map, All-keep, All-Mem, if-All, ℤ, pos, negsuc,
  pos_part, neg_part, sub_ℕ, ◌+ℤ◌, ◌-ℤ◌, ◌*ℤ◌, ◌≤ℤ◌, ◌<ℤ◌, ltb_ℤ, leb_ℤ, eqb_ℤ, max_ℤ, min_ℤ,
  +ℤ_parts, -ℤ_parts, eq_of_parts, int_laws, Number, nan, neg_infinity, pos_infinity, finite,
  is_finite, num_lt, num_eq, num_le, is_positive, ℕ, zero, suc, ◌+◌, ◌-◌, ◌*◌, ◌/◌, ◌%◌, ◌≤◌, ◌<◌,
  min, max, ◌≡◌, refl, sym, ap, ◌∙◌, ◌≢◌, ◌↔◌, ◌⊎◌, inl, inr, Bool, true, false, not, ◌&&◌, ◌||◌,
  Option, none, some, List, [], ◌∷◌, ◌++◌, map, take, take_all, arith, ℕ_discrete,
}

pub data ErrorCode : Type 0 where
  response_too_large invalid_json_response read_circuit_open operation_deadline_exceeded : ErrorCode
  http_error : ErrorCode

-- A ProjectXApiError with its code and status, an error of the transport, or any other.
pub data CallError : Type 0 where
  api_error : ErrorCode → Option ℕ → CallError
  transport_error other_error : CallError

pub data RetryClass : Type 0 where
  read_idempotent auth_revalidate mutation_ambiguous no_retry : RetryClass

abbrev pub has_status : ℕ → Option ℕ → Bool
has_status n none = false
has_status n (some m) = m == n

abbrev pub is_final_code : ErrorCode → Bool
is_final_code response_too_large = true
is_final_code invalid_json_response = true
is_final_code read_circuit_open = true
is_final_code _ = false

abbrev pub is_server_error : Option ℕ → Bool
is_server_error none = true
is_server_error (some n) = leb 500 n

unfoldable pub classify_project_x_error : CallError → RetryClass
classify_project_x_error (api_error code status) =
    if has_status 401 status || has_status 403 status
    then auth_revalidate
    else if has_status 429 status
    then read_idempotent
    else if is_final_code code
    then no_retry
    else if is_server_error status
    then read_idempotent
    else no_retry
classify_project_x_error _ = no_retry

abbrev pub is_transport_retryable_error : CallError → Bool
is_transport_retryable_error transport_error = true
is_transport_retryable_error _ = false

abbrev pub is_read_idempotent : RetryClass → Bool
is_read_idempotent read_idempotent = true
is_read_idempotent _ = false

unfoldable pub should_retry_read : CallError → ℕ → ℕ → Bool
unfolding classify_project_x_error
should_retry_read e attempt max_attempts =
    if leb max_attempts (attempt + 1)
    then false
    else is_transport_retryable_error e || is_read_idempotent (classify_project_x_error e)

abbrev pub retries_after : CallError → ℕ → ℕ → Bool
retries_after (api_error code status) attempt max_attempts =
    has_status 429 status || should_retry_read (api_error code status) attempt max_attempts
retries_after e attempt max_attempts = is_transport_retryable_error e

unfoldable pub should_retry_post : Endpoint → CallError → ℕ → ℕ → Bool
unfolding should_retry_read
should_retry_post path e attempt max_attempts =
    if is_mutation_path path
    then false
    else if leb max_attempts (attempt + 1)
    then false
    else retries_after e attempt max_attempts

-- What comes of a request once the gate lets it through.
pub data Response : Type 0 where
  gate_timed_out answered : Response
  failed : CallError → Response

-- One attempt: the time that has passed when it begins and when it takes its turn, the clock, and what
-- comes of it.
pub record Attempt : Type 0 where
  pub elapsed_before : ℕ
  pub elapsed_inside : ℕ
  pub now : ℕ
  pub response : Response

pub record Call : Type 0 where
  pub breaker : Breaker
  pub sent : ℕ

pub data Outcome : Type 0 where
  returned exhausted : Outcome
  threw : CallError → Outcome

-- What the request does, once it is sent.
abbrev pub sent_request : Endpoint → Call → Option CallError → Call × Response
sent_request path c none =
    (record { breaker = record_success path c.breaker; sent = c.sent + 1 }, answered)
sent_request path c (some e) = (record c { sent = c.sent + 1 }, failed e)

-- An open circuit refuses a read before it is sent.
abbrev pub guarded : Endpoint → ℕ → Call → Option CallError → Call × Response
guarded path now c e =
    if is_open path now c.breaker
    then (c, failed (api_error read_circuit_open none))
    else sent_request path c e

-- postOnce, behind the gate.
abbrev pub post_once : Endpoint → ℕ → Call → Response → Call × Response
post_once path now c gate_timed_out = (c, gate_timed_out)
post_once path now c answered = guarded path now c none
post_once path now c (failed e) = guarded path now c (some e)

-- The body of `try`.
abbrev pub try_attempt : Endpoint → ℕ → Attempt → Call → Call × Response
try_attempt path deadline a c =
    if leb deadline a.elapsed_inside
    then (c, failed (api_error operation_deadline_exceeded none))
    else post_once path a.now c a.response

-- What follows the attempt: `rest` is the next one.
abbrev pub after_attempt :
    Endpoint → ℕ → ℕ → Call → Call → Response → Call × Outcome → Call × Outcome
after_attempt path attempt max_attempts c noted answered rest = (c, returned)
after_attempt path attempt max_attempts c noted gate_timed_out rest =
    (c, threw (api_error operation_deadline_exceeded none))
after_attempt path attempt max_attempts c noted (failed e) rest =
    if ltb (attempt + 1) max_attempts && should_retry_post path e attempt max_attempts
    then rest
    else (noted, threw e)

-- A failed read counts against its circuit.
abbrev pub note_failure : Endpoint → ℕ → Call → Call
note_failure path now c = record c { breaker = record_failure path now c.breaker }

-- The loop from one attempt on, with the rounds that are left.
unfoldable pub post_from : Endpoint → ℕ → ℕ → (ℕ → Attempt) → ℕ → ℕ → Call → Call × Outcome
unfolding is_open record_success record_failure should_retry_post
post_from path deadline max_attempts attempts zero attempt c = (c, exhausted)
post_from path deadline max_attempts attempts (suc rounds) attempt c =
    let a = attempts attempt in
    let (tried, response) = try_attempt path deadline a c in
    let noted = note_failure path a.now tried in
    let rest = post_from path deadline max_attempts attempts rounds (attempt + 1) noted in
    if leb deadline a.elapsed_before
    then (c, threw (api_error operation_deadline_exceeded none))
    else after_attempt path attempt max_attempts tried noted response rest

-- `Math.max(1, delays.length)` attempts, or one for bars in a storm.
abbrev pub attempts_allowed : Bool → ℕ → ℕ
attempts_allowed storm delays = if storm then 1 else max 1 delays

abbrev pub first_call : Breaker → Call
first_call b = record { breaker = b; sent = 0 }

abbrev pub post : Endpoint → ℕ → Bool → ℕ → (ℕ → Attempt) → Breaker → Call × Outcome
post path deadline storm delays attempts b =
    let max_attempts = attempts_allowed storm delays in
    post_from path deadline max_attempts attempts max_attempts 0 (first_call b)
