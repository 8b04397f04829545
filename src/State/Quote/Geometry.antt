-- ===== src/State/Quote/Geometry.antt =====
-- The two modules that judge a quote agree: state/quote-state and domain/entry-reference.
use glitch_topstep.State.Quote.{
  normal, locked, classify_quote_state, QuoteActionKind, new_exposure, risk_increasing_amendment,
  exit_reduction, flatten, protective_action, recovery, QuoteState, is_eligible,
  derive_execution_eligibility, action_allowed_for_quote,
}
use glitch_topstep.Domain.EntryReference.{is_executable_quote_geometry}
use glitch_topstep.Prelude.{
  Number, is_finite, num_eq, is_positive, ◌≡◌, refl, ◌↔◌, Bool, true, false, ◌&&◌, Option, none,
  some, arith,
}

-- The same positive amount on both sides.
abbrev pub is_locked_geometry : Option Number → Option Number → Bool
is_locked_geometry (some bid) (some ask) = is_finite bid && (is_positive bid && num_eq bid ask)
is_locked_geometry _ _ = false

classify-executable_some :
    (bid ask : Number)
    → ((classify_quote_state (some bid) (some ask)).0 ≡ normal)
      ↔ (is_executable_quote_geometry (some bid) (some ask) ≡ true)
unfolding classify_quote_state is_executable_quote_geometry
classify-executable_some bid ask = ground arith

classify-locked_some :
    (bid ask : Number)
    → ((classify_quote_state (some bid) (some ask)).0 ≡ locked)
      ↔ (is_locked_geometry (some bid) (some ask) ≡ true)
unfolding classify_quote_state
classify-locked_some bid ask = ground arith

-- Whether the action is allowed on the quote.
abbrev pub allows : Option Number → Option Number → Bool → QuoteActionKind → Bool
allows bid ask complete a =
    action_allowed_for_quote a
      (derive_execution_eligibility (classify_quote_state bid ask).0 complete)

pub classify-normal :
    (bid ask : Option Number)
    → ((classify_quote_state bid ask).0 ≡ normal) ↔ (is_executable_quote_geometry bid ask ≡ true)
unfolding classify_quote_state is_executable_quote_geometry
classify-normal (some bid) (some ask) = classify-executable_some bid ask
classify-normal none ask = ground arith
classify-normal (some bid) none = ground arith

classify-locked :
    (bid ask : Option Number)
    → ((classify_quote_state bid ask).0 ≡ locked) ↔ (is_locked_geometry bid ask ≡ true)
unfolding classify_quote_state
classify-locked (some bid) (some ask) = classify-locked_some bid ask
classify-locked none ask = ground arith
classify-locked (some bid) none = ground arith

normal-eligible :
    (s : QuoteState) (complete : Bool)
    → (is_eligible (derive_execution_eligibility s complete) ≡ true)
      ↔ ((s ≡ normal) × (complete ≡ true))
unfolding derive_execution_eligibility
normal-eligible s complete = ground arith

raising_allowed :
    (bid ask : Option Number) (complete : Bool)
    → (is_eligible (derive_execution_eligibility (classify_quote_state bid ask).0 complete) ≡ true)
      ↔ ((is_executable_quote_geometry bid ask ≡ true) × (complete ≡ true))
raising_allowed bid ask complete =
    let e = normal-eligible (classify_quote_state bid ask).0 complete in
    let c = classify-normal bid ask in
    ((λ h. let p = e.0 h in (c.0 p.0, p.1)), (λ h. e.1 (c.1 h.0, h.1)))

-- Whatever the two sides are, missing, NaN, infinite, crossed or negative: the quote is normal exactly
-- when the entry reference takes its geometry for executable, and locked exactly when both sides are
-- one positive amount. New exposure and an amendment that raises the risk are allowed exactly on an
-- executable quote with complete data, and every other action is always allowed.
pub classify-executable :
    (bid ask : Option Number) (complete : Bool)
    → (((classify_quote_state bid ask).0 ≡ normal) ↔ (is_executable_quote_geometry bid ask ≡ true))
      × (((classify_quote_state bid ask).0 ≡ locked) ↔ (is_locked_geometry bid ask ≡ true))
      × ((allows bid ask complete new_exposure ≡ true)
          ↔ ((is_executable_quote_geometry bid ask ≡ true) × (complete ≡ true)))
      × ((allows bid ask complete risk_increasing_amendment ≡ true)
          ↔ ((is_executable_quote_geometry bid ask ≡ true) × (complete ≡ true)))
      × (allows bid ask complete exit_reduction ≡ true)
      × (allows bid ask complete flatten ≡ true)
      × (allows bid ask complete protective_action ≡ true)
      × (allows bid ask complete recovery ≡ true)
unfolding action_allowed_for_quote
classify-executable bid ask complete = (
  classify-normal bid ask,
  classify-locked bid ask,
  raising_allowed bid ask complete,
  raising_allowed bid ask complete,
  refl,
  refl,
  refl,
  refl,
)
