-- ===== src/Venue/Circuit/Examples.antt =====
-- A breaker with a threshold of two.
use glitch_topstep.Venue.Circuit.{
  Breaker, history_retrieve_bars, position_search_open, order_place, is_open, record_failure,
}
use glitch_topstep.Venue.Circuit.Isolation.{Event, fails, run, is_open-run}
use glitch_topstep.Prelude.{◌≡◌, ◌⊎◌, inl, inr, refl, true, false, none, List, [], ◌∷◌, arith}

abbrev calm : Breaker
calm = record { failure_threshold = 2; cooldown_ms = 1000; families = λ _. none }

abbrev burst : List Event
burst = fails history_retrieve_bars 10 ∷ fails history_retrieve_bars 20 ∷ fails order_place 30 ∷ []

bars_open :
    is_open history_retrieve_bars 30
      (record_failure history_retrieve_bars 20 (record_failure history_retrieve_bars 10 calm))
    ≡ true
unfolding is_open record_failure
bars_open = refl

is_open-run_example :
    (is_open position_search_open 30 (run burst calm) ≡ is_open position_search_open 30 calm)
    × ((false ≡ false) ⊎ (is_open position_search_open 30 (run burst calm) ≡ false))
is_open-run_example =
    is_open-run position_search_open burst calm 30
      (inr (omega arith), (inr (omega arith), (inl refl, tt)))
