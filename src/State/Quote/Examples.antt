-- ===== src/State/Quote/Examples.antt =====
-- A quote on both sides.
use glitch_topstep.State.Quote.{
  normal, locked, invalid, classify_quote_state, new_exposure, risk_increasing_amendment,
  exit_reduction, flatten, protective_action, recovery,
}
use glitch_topstep.State.Quote.Geometry.{allows, is_locked_geometry, classify-executable}
use glitch_topstep.Domain.EntryReference.{is_executable_quote_geometry}
use glitch_topstep.Prelude.{pos, Number, finite, ◌≡◌, refl, ◌↔◌, true, Option, some}

abbrev bid : Option Number
bid = some (finite (pos 40390))

abbrev ask : Option Number
ask = some (finite (pos 40410))

crossed_test : (classify_quote_state ask bid).0 ≡ invalid
unfolding classify_quote_state
crossed_test = refl

locked_test : (classify_quote_state ask ask).0 ≡ locked
unfolding classify_quote_state
locked_test = refl

classify-executable_example :
    (((classify_quote_state bid ask).0 ≡ normal) ↔ (is_executable_quote_geometry bid ask ≡ true))
    × (((classify_quote_state bid ask).0 ≡ locked) ↔ (is_locked_geometry bid ask ≡ true))
    × ((allows bid ask true new_exposure ≡ true)
        ↔ ((is_executable_quote_geometry bid ask ≡ true) × (true ≡ true)))
    × ((allows bid ask true risk_increasing_amendment ≡ true)
        ↔ ((is_executable_quote_geometry bid ask ≡ true) × (true ≡ true)))
    × (allows bid ask true exit_reduction ≡ true)
    × (allows bid ask true flatten ≡ true)
    × (allows bid ask true protective_action ≡ true)
    × (allows bid ask true recovery ≡ true)
classify-executable_example = classify-executable bid ask true
