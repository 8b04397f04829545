-- ===== src/Ownership/Protection/Examples.antt =====
-- The protection of one intent, `ab`.
use mathlib.Core.List.{reverse}
use glitch_topstep.Ownership.Protection.{
  stop_leg, target_leg, leg_tag, split_generation, parse_id, parse_protective_tag,
  protection_custom_tags, intent_id_from_stop_tag, decimal, value_back,
}
use glitch_topstep.Ownership.ScaleIn.{is_protective_custom_tag}
use glitch_topstep.Ownership.Protection.RoundTrip.{IsNameable, parse-protection_tags}
use glitch_topstep.Ownership.Protection.Legs.{OrderInfo, has_tag}
use glitch_topstep.Ownership.Protection.Generations.{
  next_unused_protection_generation, next_unused_fresh,
}
use glitch_topstep.Ownership.Protection.Rearm.{sell, sanitize_rearm_protection_prices}
use glitch_topstep.Ownership.Protection.Rearm.Outside.{IsOutside, sanitize_rearm-IsOutside}
use glitch_topstep.Domain.EntryReference.{Quote}
use glitch_topstep.Prelude.{
  All, pos, ◌+ℤ◌, ◌-ℤ◌, ◌*ℤ◌, max_ℤ, finite, ℕ, ◌≡◌, refl, inl, true, false, none, some, List, [],
  ◌∷◌, arith,
}

abbrev intent : List ℕ
intent = b'a' ∷ b'b' ∷ []

-- `glt-ab-r12-SL`
abbrev later_stop : List ℕ
later_stop =
    b'g' ∷ b'l' ∷ b't' ∷ b'-' ∷ b'a' ∷ b'b' ∷ b'-' ∷ b'r' ∷ b'1' ∷ b'2' ∷ b'-' ∷ b'S' ∷ b'L' ∷ []

later_stop_test : (protection_custom_tags intent (pos 12)).stop ≡ later_stop
unfolding protection_custom_tags decimal
later_stop_test = refl

stop_intent_test : intent_id_from_stop_tag later_stop ≡ some intent
unfolding intent_id_from_stop_tag parse_id
stop_intent_test = refl

protective_test : is_protective_custom_tag (some later_stop) ≡ true
unfolding is_protective_custom_tag
protective_test = refl

intent-IsNameable : IsNameable intent
intent-IsNameable = (omega arith, refl)

unmarked : split_generation (reverse intent) ≡ none
unfolding split_generation
unmarked = refl

parse-protection_tags_example :
    parse_protective_tag (leg_tag intent (pos 12) stop_leg)
    ≡ some (record { intent_id = intent; leg = stop_leg; generation = 12 })
parse-protection_tags_example =
    parse-protection_tags intent 12 stop_leg intent-IsNameable (inl (omega arith))

abbrev order : OrderInfo
order = record {
  id = 5;
  account_id = 11;
  contract_id = 5;
  update_timestamp = 100;
  order_type = 4;
  limit_price = none;
  stop_price = some (pos 40000);
  custom_tag = some later_stop;
  parent_order_id = none;
}

next_is_thirteen : next_unused_protection_generation intent (order ∷ []) 11 ≡ pos 13
unfolding next_unused_protection_generation ◌+ℤ◌ max_ℤ parse_id value_back
next_is_thirteen = refl

next_unused_fresh_example :
    All
      (λ o. o.account_id ≡ 11 → has_tag (leg_tag intent (pos 13) target_leg) o ≡ false)
      (order ∷ [])
next_unused_fresh_example =
    next_unused_fresh intent (order ∷ []) 11 13 target_leg intent-IsNameable (inl (omega arith))
      next_is_thirteen

abbrev quote : Quote
quote = record {
  last_price = finite (pos 39900);
  best_bid = finite (pos 39890);
  best_ask = finite (pos 39910);
  timestamp = some (pos 9500);
}

-- The market has traded through the stop of a long position at 40000.
moved_test :
    sanitize_rearm_protection_prices sell (pos 40000) (pos 41000) (some quote) (pos 50)
    ≡ record { stop_price = pos 38890; target_price = pos 41000; adjusted = true }
unfolding sanitize_rearm_protection_prices ◌-ℤ◌ ◌+ℤ◌ ◌*ℤ◌ max_ℤ
moved_test = refl

sanitize_rearm-IsOutside_example :
    let r = sanitize_rearm_protection_prices sell (pos 40000) (pos 41000) (some quote) (pos 50) in
    IsOutside sell r.stop_price r.target_price (pos 39890)
    × (IsOutside sell (pos 40000) (pos 41000) (pos 39890)
        → (r.stop_price ≡ pos 40000) × (r.target_price ≡ pos 41000) × (r.adjusted ≡ false))
sanitize_rearm-IsOutside_example =
    sanitize_rearm-IsOutside sell (pos 40000) (pos 41000) (pos 39890) (pos 50) (some quote) refl
      (omega arith)
