-- ===== src/Execution/Amendment/Examples.antt =====
-- Amendments at concrete prices: a long position from 20000 in ticks of 25, stopped at 19900.
use glitch_topstep.Execution.Amendment.Envelope.{
  WithinEnvelope, accepted_stop, amend_all, amend_all-bound,
}
use glitch_topstep.Execution.Amendment.{
  long, stop, target, Source, hermes_intent, auto_breakeven, RiskEnvelope, Input, accepted,
  rejected, is_tighten_only, protected_loss, build_envelope, is_worse, is_marketable, is_wrong_side,
  check_envelope, check_widening, check_market, check_entry, check_leg, verdict, check_current,
  validate_amendment, stop_would_widen, stop_widen_exceeds_risk_envelope,
}
use glitch_topstep.Prelude.{ℤ, pos, ◌-ℤ◌, ◌*ℤ◌, ◌≡◌, refl, ◌⊎◌, false, none, some, [], ◌∷◌}

abbrev env : RiskEnvelope
env = record {
  max_protected_loss_ticks = 4;
  stop_boundary_price = pos 19900;
  fees_slippage_reserve_ticks = 2;
}

build_env : build_envelope long (pos 20000) (pos 19900) 25 none ≡ env
unfolding build_envelope ◌-ℤ◌
build_env = refl

abbrev request : Source → ℤ → Input
request s price = record {
  side = long;
  leg = stop;
  current_price = some (pos 19950);
  new_price = price;
  average_entry = some (pos 20000);
  best_bid = some (pos 20010);
  best_ask = some (pos 20011);
  source = some s;
  tick_size = some (pos 25);
  envelope = some env;
}

abbrev widened : Input
widened = request hermes_intent (pos 19925)

widened_accepted : validate_amendment widened ≡ accepted hermes_intent
unfolding validate_amendment check_current verdict check_leg check_widening check_envelope
    check_market is_worse is_tighten_only is_marketable protected_loss ◌-ℤ◌ ◌*ℤ◌
widened_accepted = refl

too_wide :
    validate_amendment (request hermes_intent (pos 19875))
    ≡ rejected stop_widen_exceeds_risk_envelope
unfolding validate_amendment check_current verdict check_leg check_widening check_envelope
    check_market is_worse is_tighten_only is_marketable protected_loss ◌-ℤ◌ ◌*ℤ◌
too_wide = refl

automatic_refused :
    validate_amendment (request auto_breakeven (pos 19925)) ≡ rejected stop_would_widen
unfolding validate_amendment check_current verdict check_leg check_widening is_worse is_tighten_only
automatic_refused = refl

abbrev nearer_target : Input
nearer_target = record widened {
  leg = target;
  current_price = some (pos 20100);
  new_price = pos 20125;
}

target_accepted : validate_amendment nearer_target ≡ accepted hermes_intent
unfolding validate_amendment check_current verdict check_leg check_entry is_worse is_wrong_side
target_accepted = refl

accepted_stop_example :
    ((bid : ℤ) × (ask : ℤ) × (widened.best_bid ≡ some bid)
      × (widened.best_ask ≡ some ask)
      × (is_marketable long widened.new_price bid ask ≡ false))
    × ((current : ℤ) × (widened.current_price ≡ some current)
        × ((is_worse long widened.new_price current ≡ false) ⊎ WithinEnvelope widened))
accepted_stop_example = accepted_stop widened hermes_intent refl widened_accepted

amend_all-bound_example :
    is_worse long
      (amend_all (pos 19950) (widened ∷ request hermes_intent (pos 19875) ∷ []))
      env.stop_boundary_price
    ≡ false
unfolding is_worse
amend_all-bound_example =
    amend_all-bound long env (widened ∷ request hermes_intent (pos 19875) ∷ []) (pos 19950)
      ((refl, refl, refl), ((refl, refl, refl), tt)) refl
