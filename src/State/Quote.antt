-- ===== src/State/Quote.antt =====
-- src/state/quote-state.ts: what a quote allows. A missing or null side is `none`.
pub mod Geometry
mod Examples
use glitch_topstep.Prelude.{
  ◌>>=◌, ltb, leb, ◌==◌, if◌then◌else◌, ltb→lt, leb→le, ==_iff, Bool-cases, Option-cases, is_some,
  is_none, or_else, length, is_empty, length-append, some_of, some_inj, every, keep, find,
  length-keep-le, All, ℤ, pos, negsuc, pos_part, neg_part, sub_ℕ, ◌+ℤ◌, ◌-ℤ◌, ◌*ℤ◌, ◌≤ℤ◌, ◌<ℤ◌,
  ltb_ℤ, leb_ℤ, eqb_ℤ, max_ℤ, min_ℤ, +ℤ_parts, -ℤ_parts, eq_of_parts, int_laws, Number, nan,
  neg_infinity, pos_infinity, finite, is_finite, num_lt, num_eq, num_le, is_positive, ℕ, zero, suc,
  ◌+◌, ◌-◌, ◌*◌, ◌/◌, ◌≤◌, ◌<◌, min, max, ◌≡◌, refl, sym, ap, ◌∙◌, ◌≢◌, ◌↔◌, ◌⊎◌, inl, inr, Bool,
  true, false, not, ◌&&◌, ◌||◌, Option, none, some, List, [], ◌∷◌, ◌++◌, map, arith, ℕ_discrete,
}

pub data QuoteState : Type 0 where
  normal locked invalid : QuoteState

pub data ExecutionEligibility : Type 0 where
  eligible blocked_locked blocked_invalid blocked_incomplete : ExecutionEligibility

pub data QuoteStateReason : Type 0 where
  normal_bbo locked_bbo crossed_bbo nonfinite_bbo nonpositive_bbo missing_bbo : QuoteStateReason

pub data QuoteActionKind : Type 0 where
  new_exposure risk_increasing_amendment exit_reduction flatten : QuoteActionKind
  protective_action recovery : QuoteActionKind

-- `if (test) reasons.push(reason);`
abbrev pub push_if : Bool → QuoteStateReason → List QuoteStateReason → List QuoteStateReason
push_if test reason reasons = if test then reasons ++ reason ∷ [] else reasons

pub bbo_reasons : Number → Number → List QuoteStateReason
bbo_reasons bid ask = push_if (is_finite bid && is_finite ask && num_eq bid ask) locked_bbo (
    push_if (is_finite bid && is_finite ask && num_lt ask bid) crossed_bbo (
      push_if (not (is_positive bid) || not (is_positive ask)) nonpositive_bbo
        (push_if (not (is_finite bid) || not (is_finite ask)) nonfinite_bbo [])))

pub state_of_reasons : List QuoteStateReason → QuoteState × List QuoteStateReason
state_of_reasons [] = (normal, normal_bbo ∷ [])
state_of_reasons (locked_bbo ∷ []) = (locked, locked_bbo ∷ [])
state_of_reasons reasons = (invalid, reasons)

unfoldable pub classify_quote_state :
    Option Number → Option Number → QuoteState × List QuoteStateReason
unfolding bbo_reasons state_of_reasons
classify_quote_state (some bid) (some ask) = state_of_reasons (bbo_reasons bid ask)
classify_quote_state _ _ = (invalid, missing_bbo ∷ [])

unfoldable pub derive_execution_eligibility : QuoteState → Bool → ExecutionEligibility
derive_execution_eligibility locked _ = blocked_locked
derive_execution_eligibility invalid _ = blocked_invalid
derive_execution_eligibility normal false = blocked_incomplete
derive_execution_eligibility normal true = eligible

abbrev pub is_eligible : ExecutionEligibility → Bool
is_eligible eligible = true
is_eligible _ = false

unfoldable pub action_allowed_for_quote : QuoteActionKind → ExecutionEligibility → Bool
action_allowed_for_quote new_exposure e = is_eligible e
action_allowed_for_quote risk_increasing_amendment e = is_eligible e
action_allowed_for_quote _ e = true
