-- ===== src/State/DataQuality/Examples.antt =====
-- Whether an account that was seen a moment ago is known.
use glitch_topstep.State.Quote.{eligible}
use glitch_topstep.State.DataQuality.{
  running, VenueStatus, Limits, quote_missing, evaluate_data_quality,
}
use glitch_topstep.State.DataQuality.Freshness.{Known, evaluate-Known}
use glitch_topstep.Prelude.{pos, ◌-ℤ◌, finite, ◌≡◌, refl, true, none, some, [], ◌∷◌}

abbrev limits : Limits
limits = record { max_quote_age_ms = pos 5000; max_state_age_ms = pos 10000 }

-- The state is older than the limit, and a reconciliation that began ten seconds ago covers for it.
abbrev status : VenueStatus
status = record {
  captured_at = some (pos 80000);
  quote = some (record {
    last_price = finite (pos 40400);
    best_bid = finite (pos 40390);
    best_ask = finite (pos 40410);
    timestamp = some (pos 101000);
  });
  generation = 1;
  reconciliation = record {
    state = running;
    generation = 1;
    last_started_at = some (pos 90000);
    last_succeeded_at = none;
  };
  state_issues = [];
  state_complete = true;
}

without_quote_test :
    (evaluate_data_quality limits (record status { quote = none }) (pos 100000)).issues
    ≡ quote_missing ∷ []
unfolding evaluate_data_quality ◌-ℤ◌
without_quote_test = refl

status_complete : (evaluate_data_quality limits status (pos 100000)).state_complete ≡ true
unfolding evaluate_data_quality ◌-ℤ◌
status_complete = refl

evaluate-Known_example :
    Known limits status (pos 100000)
    × ((evaluate_data_quality limits status (pos 100000)).execution_eligibility ≡ eligible)
evaluate-Known_example = evaluate-Known limits status (pos 100000) status_complete
