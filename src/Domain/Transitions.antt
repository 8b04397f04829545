-- ===== src/Domain/Transitions.antt =====
-- src/domain/state-machines.ts: assertTransition over any graph, and the graphs of intent admission,
-- reconciliation and the outcome feed. A time is the number it parses to, or none. The graph of
-- protected reductions stands with their table.
mod Order
mod Examples
use glitch_topstep.Prelude.{
  ◌>>=◌, ltb, leb, ◌==◌, if◌then◌else◌, ltb→lt, leb→le, ==_iff, Bool-cases, Option-cases, is_some,
  is_none, or_else, length, is_empty, length-append, some_of, some_inj, every, keep, find,
  length-keep-le, All, ℤ, pos, negsuc, pos_part, neg_part, sub_ℕ, ◌+ℤ◌, ◌-ℤ◌, ◌*ℤ◌, ◌≤ℤ◌, ◌<ℤ◌,
  ltb_ℤ, leb_ℤ, eqb_ℤ, max_ℤ, min_ℤ, +ℤ_parts, -ℤ_parts, eq_of_parts, int_laws, Number, nan,
  neg_infinity, pos_infinity, finite, is_finite, num_lt, num_eq, num_le, is_positive, ℕ, zero, suc,
  ◌+◌, ◌-◌, ◌*◌, ◌/◌, ◌≤◌, ◌<◌, min, max, ◌≡◌, refl, sym, ap, ◌∙◌, ◌≢◌, ◌↔◌, ◌⊎◌, inl, inr, Bool,
  true, false, not, ◌&&◌, ◌||◌, Option, none, some, List, [], ◌∷◌, ◌++◌, map, arith, ℕ_discrete,
}

pub data TransitionError : Type 0 where
  invalid_transition timestamp_invalid : TransitionError

pub data IntentAdmissionState : Type 0 where
  received validated rejected superseded : IntentAdmissionState

pub data ReconciliationState : Type 0 where
  idle running succeeded failed : ReconciliationState

pub data OutcomeFeedState : Type 0 where
  pending provisional enriched corrected : OutcomeFeedState

-- Whether the list of the first state has the second.
pub intent_admission_allows : IntentAdmissionState → IntentAdmissionState → Bool
intent_admission_allows received validated = true
intent_admission_allows received rejected = true
intent_admission_allows received superseded = true
intent_admission_allows validated superseded = true
intent_admission_allows _ _ = false

pub reconciliation_allows : ReconciliationState → ReconciliationState → Bool
reconciliation_allows idle running = true
reconciliation_allows running succeeded = true
reconciliation_allows running failed = true
reconciliation_allows succeeded running = true
reconciliation_allows succeeded idle = true
reconciliation_allows failed running = true
reconciliation_allows failed idle = true
reconciliation_allows _ _ = false

pub outcome_feed_allows : OutcomeFeedState → OutcomeFeedState → Bool
outcome_feed_allows pending provisional = true
outcome_feed_allows provisional enriched = true
outcome_feed_allows provisional corrected = true
outcome_feed_allows enriched corrected = true
outcome_feed_allows corrected corrected = true
outcome_feed_allows _ _ = false

module _ {ℓ} {State : Type ℓ} (allows : State → State → Bool) where
  -- The error that the transition throws, if it does.
  pub transition_error : Option State → State → Option ℕ → Option TransitionError
  transition_error none to none = some timestamp_invalid
  transition_error none to (some _) = none
  transition_error (some from) to time =
      if not (allows from to)
      then some invalid_transition
      else if is_none time
      then some timestamp_invalid
      else none
