-- ===== src/State/DataQuality.antt =====
-- src/state/data-quality.ts: whether the gateway knows enough to open exposure. Issues are codes, of
-- which the named ones are those that this module adds or reads. A time is the number of milliseconds
-- that it parses to, or none. The telemetry, which is only logged, is left out.
pub mod Freshness
mod Examples
use glitch_topstep.Domain.EntryReference.{Quote}
use glitch_topstep.State.Quote.{
  QuoteState, normal, locked, invalid, ExecutionEligibility, eligible, blocked_locked,
  blocked_invalid, blocked_incomplete, is_eligible, classify_quote_state,
  derive_execution_eligibility,
}
use glitch_topstep.Prelude.{
  ◌>>=◌, ltb, leb, ◌==◌, if◌then◌else◌, ltb→lt, leb→le, ==_iff, Bool-cases, Option-cases, is_some,
  is_none, or_else, length, is_empty, length-append, some_of, some_inj, every, keep, find,
  length-keep-le, All, ℤ, pos, negsuc, pos_part, neg_part, sub_ℕ, ◌+ℤ◌, ◌-ℤ◌, ◌*ℤ◌, ◌≤ℤ◌, ◌<ℤ◌,
  ltb_ℤ, leb_ℤ, eqb_ℤ, max_ℤ, min_ℤ, +ℤ_parts, -ℤ_parts, eq_of_parts, int_laws, Number, nan,
  neg_infinity, pos_infinity, finite, is_finite, num_lt, num_eq, num_le, is_positive, ℕ, zero, suc,
  ◌+◌, ◌-◌, ◌*◌, ◌/◌, ◌≤◌, ◌<◌, min, max, ◌≡◌, refl, sym, ap, ◌∙◌, ◌≢◌, ◌↔◌, ◌⊎◌, inl, inr, Bool,
  true, false, not, ◌&&◌, ◌||◌, Option, none, some, List, [], ◌∷◌, ◌++◌, map, arith, ℕ_discrete,
}

pub data Issue : Type 0 where
  venue_state_incomplete quote_missing quote_locked quote_geometry_invalid quote_stale : Issue
  quote_timestamp_invalid quote_timestamp_future account_state_stale : Issue
  account_state_timestamp_invalid account_state_timestamp_future : Issue
  other_issue : ℕ → Issue

abbrev pub issue_code : Issue → ℕ
issue_code venue_state_incomplete = 0
issue_code quote_missing = 1
issue_code quote_locked = 2
issue_code quote_geometry_invalid = 3
issue_code quote_stale = 4
issue_code quote_timestamp_invalid = 5
issue_code quote_timestamp_future = 6
issue_code account_state_stale = 7
issue_code account_state_timestamp_invalid = 8
issue_code account_state_timestamp_future = 9
issue_code (other_issue n) = n + 10

-- `issues.includes(code)`
abbrev pub includes : Issue → List Issue → Bool
includes i issues = some_of (λ j. issue_code j == issue_code i) issues

-- `Set.add`, which keeps the order of insertion.
abbrev pub add_issue : Issue → List Issue → List Issue
add_issue i issues = if includes i issues then issues else issues ++ i ∷ []

abbrev pub add_found : Option Issue → List Issue → List Issue
add_found none issues = issues
add_found (some i) issues = add_issue i issues

-- `new Set(issues)`
unfoldable pub set_from : List Issue → List Issue → List Issue
set_from set [] = set
set_from set (i ∷ issues) = set_from (add_issue i set) issues

pub data ReconciliationState : Type 0 where
  idle running succeeded failed : ReconciliationState

pub record Reconciliation : Type 0 where
  pub state : ReconciliationState
  pub generation : ℕ
  pub last_started_at : Option ℤ
  pub last_succeeded_at : Option ℤ

pub record VenueStatus : Type 0 where
  pub captured_at : Option ℤ
  pub quote : Option Quote
  pub generation : ℕ
  pub reconciliation : Reconciliation
  pub state_issues : List Issue
  pub state_complete : Bool

pub record Limits : Type 0 where
  pub max_quote_age_ms : ℤ
  pub max_state_age_ms : ℤ

abbrev pub future_tolerance_ms : ℕ
future_tolerance_ms = 5000

abbrev pub reconciliation_grace_ms : ℕ
reconciliation_grace_ms = 30000

unfoldable pub age_milliseconds : Option ℤ → ℤ → Option ℤ
age_milliseconds none now = none
age_milliseconds (some time) now = some (now -ℤ time)

-- When the cycle that covers for an old state began or ended.
abbrev pub grace_time : Reconciliation → ReconciliationState → Option ℤ
grace_time r running = r.last_started_at
grace_time r succeeded = r.last_succeeded_at
grace_time r _ = none

abbrev pub is_recent : Option ℤ → Bool
is_recent none = false
is_recent (some age) = leb_ℤ (pos 0) age && leb_ℤ age (pos reconciliation_grace_ms)

unfoldable pub reconciliation_grace : VenueStatus → ℤ → Bool
unfolding age_milliseconds
reconciliation_grace s now =
    if not (s.reconciliation.generation == s.generation)
    then false
    else is_recent (age_milliseconds (grace_time s.reconciliation s.reconciliation.state) now)

-- The issue of a quote's age.
unfoldable pub quote_age_issue : Limits → Option ℤ → Option Issue
quote_age_issue l none = some quote_timestamp_invalid
quote_age_issue l (some age) =
    if ltb_ℤ age (pos 0 -ℤ pos future_tolerance_ms)
    then some quote_timestamp_future
    else if ltb_ℤ age (pos 0)
    then none
    else if ltb_ℤ l.max_quote_age_ms age
    then some quote_stale
    else none

-- A quote from the future is taken to be fresh.
unfoldable pub quote_age_reported : Option ℤ → Option ℤ
quote_age_reported none = none
quote_age_reported (some age) = some (max_ℤ (pos 0) age)

unfoldable pub issue_code_for_quote_state : QuoteState → Option Issue
issue_code_for_quote_state locked = some quote_locked
issue_code_for_quote_state invalid = some quote_geometry_invalid
issue_code_for_quote_state normal = none

unfoldable pub state_age_issue : Limits → VenueStatus → ℤ → Option ℤ → Option Issue
unfolding reconciliation_grace
state_age_issue l s now none = some account_state_timestamp_invalid
state_age_issue l s now (some age) =
    if ltb_ℤ age (pos 0 -ℤ pos future_tolerance_ms)
    then some account_state_timestamp_future
    else if ltb_ℤ l.max_state_age_ms age && not (reconciliation_grace s now)
    then some account_state_stale
    else none

pub initial_issues : VenueStatus → List Issue
unfolding set_from
initial_issues s =
    let issues = set_from [] s.state_issues in
    if not s.state_complete && is_empty issues then venue_state_incomplete ∷ [] else issues

unfoldable pub quote_issues : Limits → ℤ → Option Quote → List Issue → List Issue
unfolding age_milliseconds quote_age_issue issue_code_for_quote_state classify_quote_state
quote_issues l now none issues = add_issue quote_missing issues
quote_issues l now (some q) issues =
    add_found
      (issue_code_for_quote_state (classify_quote_state (some q.best_bid) (some q.best_ask)).0)
      (add_found (quote_age_issue l (age_milliseconds q.timestamp now)) issues)

unfoldable pub all_issues : Limits → VenueStatus → ℤ → List Issue
unfolding initial_issues quote_issues state_age_issue age_milliseconds
all_issues l s now =
    add_found (state_age_issue l s now (age_milliseconds s.captured_at now))
      (quote_issues l now s.quote (initial_issues s))

abbrev pub is_quote_geometry_issue : Issue → Bool
is_quote_geometry_issue quote_locked = true
is_quote_geometry_issue quote_geometry_invalid = true
is_quote_geometry_issue quote_missing = true
is_quote_geometry_issue _ = false

abbrev pub quote_state_of : Option Quote → QuoteState
unfolding classify_quote_state
quote_state_of none = invalid
quote_state_of (some q) = (classify_quote_state (some q.best_bid) (some q.best_ask)).0

-- buildQuoteClassification
pub data_completeness : Option Quote → List Issue → Bool
data_completeness quote issues =
    is_some quote && is_empty (keep (λ i. not (is_quote_geometry_issue i)) issues)

pub record Quality : Type 0 where
  pub state_complete : Bool
  pub issues : List Issue
  pub quote_age_ms : Option ℤ
  pub state_age_ms : Option ℤ
  pub quote_state : QuoteState
  pub data_completeness : Bool
  pub execution_eligibility : ExecutionEligibility

abbrev pub quote_timestamp : Option Quote → Option ℤ
quote_timestamp none = none
quote_timestamp (some q) = q.timestamp

unfoldable pub evaluate_data_quality : Limits → VenueStatus → ℤ → Quality
unfolding all_issues data_completeness derive_execution_eligibility age_milliseconds
    quote_age_reported
evaluate_data_quality l s now =
    let issues = all_issues l s now in
    record {
      state_complete = is_empty issues;
      issues = issues;
      quote_age_ms = quote_age_reported (age_milliseconds (quote_timestamp s.quote) now);
      state_age_ms = age_milliseconds s.captured_at now;
      quote_state = quote_state_of s.quote;
      data_completeness = data_completeness s.quote issues;
      execution_eligibility =
          derive_execution_eligibility (quote_state_of s.quote) (data_completeness s.quote issues);
    }

abbrev pub is_blocked_locked : ExecutionEligibility → Bool
is_blocked_locked blocked_locked = true
is_blocked_locked _ = false

abbrev pub is_blocked_invalid : ExecutionEligibility → Bool
is_blocked_invalid blocked_invalid = true
is_blocked_invalid _ = false

-- The code that refuses new exposure, if one does.
pub new_exposure_block_code : Quality → Option Issue
new_exposure_block_code q =
    if is_eligible q.execution_eligibility
    then none
    else if is_blocked_locked q.execution_eligibility || includes quote_locked q.issues
    then some quote_locked
    else if is_blocked_invalid q.execution_eligibility || includes quote_geometry_invalid q.issues
    then some quote_geometry_invalid
    else if includes quote_missing q.issues
    then some quote_missing
    else some venue_state_incomplete
