-- ===== src/State/DataQuality/Freshness.antt =====
-- What complete data says of the venue.
use glitch_topstep.Domain.EntryReference.{Quote, is_executable_quote_geometry}
use glitch_topstep.State.Quote.{normal, eligible, derive_execution_eligibility}
use glitch_topstep.State.Quote.Geometry.{classify-normal}
use glitch_topstep.State.DataQuality.{
  Issue, includes, add_issue, add_found, set_from, Reconciliation, ReconciliationState, running,
  succeeded, grace_time, is_recent, VenueStatus, Limits, age_milliseconds, reconciliation_grace,
  quote_age_issue, issue_code_for_quote_state, state_age_issue, initial_issues, quote_issues,
  all_issues, quote_state_of, data_completeness, evaluate_data_quality,
}
use glitch_topstep.Prelude.{
  ◌==◌, ==_iff, Bool-cases, some_inj, inl, inr, ℕ, is_empty, ℤ, pos, ◌-ℤ◌, ◌≤ℤ◌, ◌<ℤ◌, ◌≡◌, refl,
  ◌⊎◌, true, Option, none, some, List, [], ◌∷◌, ◌++◌, arith,
}

pub includes-snoc_self : (i : Issue) (xs : List Issue) → includes i (xs ++ i ∷ []) ≡ true
includes-snoc_self i [] = ground arith
includes-snoc_self i (x ∷ xs) = ground (arith, includes-snoc_self i xs)

add_found-nil : (o : Option Issue) (xs : List Issue) → add_found o xs ≡ [] → (o ≡ none) × (xs ≡ [])
add_found-nil none xs h = (refl, h)
add_found-nil (some i) [] h = cc h
add_found-nil (some i) (x ∷ xs) h = absurd (ground arith)

set_from-nil : (set xs : List Issue) → set_from set xs ≡ [] → (set ≡ []) × (xs ≡ [])
unfolding set_from
set_from-nil set [] h = (h, refl)
set_from-nil set (i ∷ xs) h =
    absurd (cc ((add_found-nil (some i) set (set_from-nil (add_issue i set) xs h).0).0))

initial-nil :
    (s : VenueStatus) → initial_issues s ≡ [] → (s.state_complete ≡ true) × (s.state_issues ≡ [])
unfolding initial_issues
initial-nil s h = ground (arith, set_from-nil [] s.state_issues)

quote-nil :
    (l : Limits) (now : ℤ) (o : Option Quote) (xs : List Issue)
    → quote_issues l now o xs ≡ []
    → (q : Quote) × (o ≡ some q)
      × (quote_age_issue l (age_milliseconds q.timestamp now) ≡ none)
      × (issue_code_for_quote_state (quote_state_of (some q)) ≡ none)
      × (xs ≡ [])
unfolding quote_issues
quote-nil l now none xs h = absurd (cc ((add_found-nil (some Issue.quote_missing) xs h).0))
quote-nil l now (some q) xs h =
    let outer = add_found-nil _ _ h in
    let inner = add_found-nil _ _ outer.1 in (q, refl, inner.0, outer.0, inner.1)

-- Fresh: not farther in the future than the clocks may differ, and no older than the limit.
abbrev pub IsFresh : ℤ → ℤ → Type 0
IsFresh limit age = (pos 0 -ℤ pos 5000 ≤ℤ age) × ((age <ℤ pos 0) ⊎ (age ≤ℤ limit))

-- A cycle of this generation covers for an old state: it runs since, or has succeeded at, a time that
-- is no later than now and at most thirty seconds back.
pub record IsCovered (r : Reconciliation) (generation : ℕ) (now : ℤ) : Type 0 where
  pub this_generation : r.generation ≡ generation
  pub time : ℤ
  pub cycle :
      ((r.state ≡ running) × (r.last_started_at ≡ some time))
      ⊎ ((r.state ≡ succeeded) × (r.last_succeeded_at ≡ some time))
  pub begun : pos 0 ≤ℤ now -ℤ time
  pub recent : now -ℤ time ≤ℤ pos 30000

grace-time :
    (r : Reconciliation) (st : ReconciliationState) (t : ℤ)
    → grace_time r st ≡ some t
    → ((st ≡ running) × (r.last_started_at ≡ some t))
      ⊎ ((st ≡ succeeded) × (r.last_succeeded_at ≡ some t))
grace-time r st t e = ground arith

recent-time :
    (o : Option ℤ) (now : ℤ)
    → is_recent (age_milliseconds o now) ≡ true
    → (t : ℤ) × (o ≡ some t) × (pos 0 ≤ℤ now -ℤ t) × (now -ℤ t ≤ℤ pos 30000)
unfolding age_milliseconds
recent-time none now e = cc e
recent-time (some t) now e = (t, refl, ground arith, ground arith)

grace_parts :
    (s : VenueStatus) (now : ℤ)
    → reconciliation_grace s now ≡ true
    → ((s.reconciliation.generation == s.generation) ≡ true)
      × (is_recent (age_milliseconds (grace_time s.reconciliation s.reconciliation.state) now)
          ≡ true)
unfolding reconciliation_grace
grace_parts s now e = ground arith

reconciliation_grace-IsCovered :
    (s : VenueStatus) (now : ℤ)
    → reconciliation_grace s now ≡ true
    → IsCovered s.reconciliation s.generation now
reconciliation_grace-IsCovered s now e =
    let (same, recent) = grace_parts s now e in
    let (t, at, begun, within) = recent-time _ now recent in
    record {
      this_generation = (==_iff _ _).0 same;
      time = t;
      cycle = grace-time s.reconciliation s.reconciliation.state t at;
      begun = begun;
      recent = within;
    }

quote_age-none :
    (l : Limits) (o : Option ℤ)
    → quote_age_issue l o ≡ none
    → (age : ℤ) × (o ≡ some age) × IsFresh l.max_quote_age_ms age
unfolding quote_age_issue
quote_age-none l none h = cc h
quote_age-none l (some age) h = (age, refl, (ground arith, ground arith))

state_age-none :
    (l : Limits) (s : VenueStatus) (now : ℤ) (o : Option ℤ)
    → state_age_issue l s now o ≡ none
    → (age : ℤ) × (o ≡ some age)
      × (pos 0 -ℤ pos 5000 ≤ℤ age)
      × ((age ≤ℤ l.max_state_age_ms) ⊎ IsCovered s.reconciliation s.generation now)
unfolding state_age_issue
state_age-none l s now none h = cc h
state_age-none l s now (some age) h = (
  age,
  refl,
  ground arith,
  elim (Bool-cases (reconciliation_grace s now)) [
    | inl grace ↦ inr (reconciliation_grace-IsCovered s now grace)
    | inr spent ↦ inl (ground arith)
  ],
)

normal-of_issue :
    (q : Quote)
    → issue_code_for_quote_state (quote_state_of (some q)) ≡ none
    → quote_state_of (some q) ≡ normal
unfolding issue_code_for_quote_state
normal-of_issue q h = ground arith

-- What the state of the venue must be for the data to be complete.
pub record Known (l : Limits) (s : VenueStatus) (now : ℤ) : Type 0 where
  pub no_venue_issue : s.state_issues ≡ []
  pub venue_complete : s.state_complete ≡ true
  pub quote : Quote
  pub has_quote : s.quote ≡ some quote
  pub is_executable :
      is_executable_quote_geometry (some quote.best_bid) (some quote.best_ask) ≡ true
  pub quote_time : ℤ
  pub has_quote_time : quote.timestamp ≡ some quote_time
  pub quote_fresh : IsFresh l.max_quote_age_ms (now -ℤ quote_time)
  pub state_time : ℤ
  pub has_state_time : s.captured_at ≡ some state_time
  pub state_not_ahead : pos 0 -ℤ pos 5000 ≤ℤ now -ℤ state_time
  pub state_fresh :
      (now -ℤ state_time ≤ℤ l.max_state_age_ms) ⊎ IsCovered s.reconciliation s.generation now

age-time :
    (o : Option ℤ) (now age : ℤ)
    → age_milliseconds o now ≡ some age
    → (t : ℤ) × (o ≡ some t) × (now -ℤ t ≡ age)
unfolding age_milliseconds
age-time none now age e = cc e
age-time (some t) now age e = (t, refl, some_inj e)

all_issues-Known :
    (l : Limits) (s : VenueStatus) (now : ℤ) → all_issues l s now ≡ [] → Known l s now
unfolding all_issues
all_issues-Known l s now h =
    let outer = add_found-nil _ _ h in
    let (q, has, aged, shaped, start) = quote-nil l now s.quote (initial_issues s) outer.1 in
    let venue = initial-nil s start in
    let quote_aged = quote_age-none l (age_milliseconds q.timestamp now) aged in
    let state_aged = state_age-none l s now (age_milliseconds s.captured_at now) outer.0 in
    let quote_at = age-time q.timestamp now quote_aged.0 quote_aged.1 in
    let state_at = age-time s.captured_at now state_aged.0 state_aged.1 in
    record {
      no_venue_issue = venue.1;
      venue_complete = venue.0;
      quote = q;
      has_quote = has;
      is_executable =
          (classify-normal (some q.best_bid) (some q.best_ask)).0 (normal-of_issue q shaped);
      quote_time = quote_at.0;
      has_quote_time = quote_at.1;
      quote_fresh = rw quote_at.2 quote_aged.2;
      state_time = state_at.0;
      has_state_time = state_at.1;
      state_not_ahead = rw state_at.2 state_aged.2;
      state_fresh = rw state_at.2 state_aged.3;
    }

empty-nil : (xs : List Issue) → is_empty xs ≡ true → xs ≡ []
empty-nil [] h = refl
empty-nil (x ∷ xs) h = cc h

eligible-of_normal :
    (q : Quote)
    → quote_state_of (some q) ≡ normal
    → derive_execution_eligibility (quote_state_of (some q)) (data_completeness (some q) [])
      ≡ eligible
unfolding derive_execution_eligibility data_completeness
eligible-of_normal q h = ground arith

eligible-of_nil :
    (o : Option Quote) (q : Quote) (xs : List Issue)
    → o ≡ some q
    → xs ≡ []
    → quote_state_of (some q) ≡ normal
    → derive_execution_eligibility (quote_state_of o) (data_completeness o xs) ≡ eligible
eligible-of_nil o q xs e f h = rw (e, f) (eligible-of_normal q h)

-- Data is complete only if the venue reports no issue, there is an executable quote that is fresh, and
-- the account's state is not ahead of the clock and fresh too, or covered for by a reconciliation of
-- this generation that runs since, or succeeded at, a time within the last thirty seconds. New exposure
-- is then eligible.
pub evaluate-Known :
    (l : Limits) (s : VenueStatus) (now : ℤ)
    → (evaluate_data_quality l s now).state_complete ≡ true
    → Known l s now × ((evaluate_data_quality l s now).execution_eligibility ≡ eligible)
unfolding evaluate_data_quality
evaluate-Known l s now h =
    let none_left = empty-nil (all_issues l s now) h in
    let k = all_issues-Known l s now none_left in
    (
      k,
      eligible-of_nil s.quote k.quote (all_issues l s now) k.has_quote none_left
          ((classify-normal (some k.quote.best_bid) (some k.quote.best_ask)).1 k.is_executable),
    )
