-- ===== src/Domain/Transitions/Order.antt =====
-- Where a sequence of accepted transitions can lead.
use glitch_topstep.Domain.Transitions.{
  OutcomeFeedState, pending, provisional, enriched, corrected, outcome_feed_allows,
  transition_error,
}
use glitch_topstep.Prelude.{ℕ, ◌≤◌, ◌≡◌, Bool, true, Option, none, some, arith}

-- A sequence of transitions, none of which throws.
pub data Trace {ℓ} {State : Type ℓ} (allows : State → State → Bool) (from : State)
    : State → Type ℓ where
  starts : Trace allows from from
  then_goes :
      {via to : State} (time : Option ℕ)
      → Trace allows from via
      → transition_error allows (some via) to time ≡ none
      → Trace allows from to

transition_error-allows {ℓ} :
    {State : Type ℓ} (allows : State → State → Bool) (from to : State) (time : Option ℕ)
    → transition_error allows (some from) to time ≡ none
    → allows from to ≡ true
unfolding transition_error
transition_error-allows allows from to time h = ground arith

pub outcome_rank : OutcomeFeedState → ℕ
outcome_rank pending = 0
outcome_rank provisional = 1
outcome_rank enriched = 2
outcome_rank corrected = 3

outcome_feed_allows-rank :
    (s t : OutcomeFeedState) → outcome_feed_allows s t ≡ true → outcome_rank s ≤ outcome_rank t
unfolding outcome_feed_allows outcome_rank
outcome_feed_allows-rank s t h = ground arith

-- An outcome only ever gets more final: however many transitions are accepted, it never goes back
-- from corrected to enriched, from enriched to provisional, or to pending.
pub Trace-outcome_rank :
    {s t : OutcomeFeedState} → Trace outcome_feed_allows s t → outcome_rank s ≤ outcome_rank t
Trace-outcome_rank starts = omega arith
Trace-outcome_rank (then_goes {via} {to} time tr e) = omega (
  arith,
  Trace-outcome_rank tr,
  outcome_feed_allows-rank via to (transition_error-allows outcome_feed_allows via to time e),
)
