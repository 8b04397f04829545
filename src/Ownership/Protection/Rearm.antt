-- ===== src/Ownership/Protection/Rearm.antt =====
-- src/ownership/protection.ts: the prices of a protection that is placed anew.
pub mod Outside
use glitch_topstep.Ownership.Protection.{Leg, stop_leg, target_leg, parse_protective_tag}
use glitch_topstep.Ownership.Protection.Legs.{
  OrderInfo, type_of_leg, price_of_leg, has_tag, on_instrument, is_named,
}
use glitch_topstep.Domain.EntryReference.{Quote}
use glitch_topstep.Prelude.{
  ◌>>=◌, ltb, leb, ◌==◌, if◌then◌else◌, ltb→lt, leb→le, ==_iff, Bool-cases, Option-cases, is_some,
  is_none, or_else, length, is_empty, length-append, some_of, some_inj, every, keep, find,
  length-keep-le, All, All-map, All-keep, All-Mem, if-All, ℤ, pos, negsuc, pos_part, neg_part,
  sub_ℕ, ◌+ℤ◌, ◌-ℤ◌, ◌*ℤ◌, ◌≤ℤ◌, ◌<ℤ◌, ltb_ℤ, leb_ℤ, eqb_ℤ, max_ℤ, min_ℤ, +ℤ_parts, -ℤ_parts,
  eq_of_parts, int_laws, Number, nan, neg_infinity, pos_infinity, finite, is_finite, num_lt, num_eq,
  num_le, is_positive, ℕ, zero, suc, ◌+◌, ◌-◌, ◌*◌, ◌/◌, ◌%◌, ◌≤◌, ◌<◌, min, max, ◌≡◌, refl, sym,
  ap, ◌∙◌, ◌≢◌, ◌↔◌, ◌⊎◌, inl, inr, Bool, true, false, not, ◌&&◌, ◌||◌, Option, none, some, List,
  [], ◌∷◌, ◌++◌, map, take, take_all, arith, ℕ_discrete,
}

-- Whether the second order stands behind the first in the sort by time and id, or level with it.
abbrev pub is_later : OrderInfo → OrderInfo → Bool
is_later o p =
    if o.update_timestamp == p.update_timestamp
    then leb o.id p.id
    else ltb o.update_timestamp p.update_timestamp

-- The last order of the sorted list, `legs.at(-1)`.
abbrev pub last_from : Option OrderInfo → List OrderInfo → Option OrderInfo
last_from best [] = best
last_from none (o ∷ os) = last_from (some o) os
last_from (some best) (o ∷ os) = last_from (some (if is_later best o then o else best)) os

unfoldable pub last_protective_price : List OrderInfo → List ℕ → Leg → ℕ → ℕ → Option ℤ
last_protective_price orders tag leg account contract = do
  latest ← last_from none (
      keep
        (λ o.
          on_instrument account contract o && (has_tag tag o && (o.order_type == type_of_leg leg)))
        orders)
  price_of_leg leg latest

unfoldable pub last_protective_price_for_intent : List OrderInfo → List ℕ → Leg → ℕ → ℕ → Option ℤ
last_protective_price_for_intent orders intent leg account contract = do
  latest ←
      last_from none (keep (λ o. on_instrument account contract o && is_named intent leg o) orders)
  price_of_leg leg latest

-- The side that covers the position: a buy for a short one.
pub data CoverSide : Type 0 where
  buy sell : CoverSide

-- `Math.max` and `Math.min`
abbrev pub max_number : Number → Number → Number
max_number nan b = nan
max_number a nan = nan
max_number a b = if num_lt a b then b else a

abbrev pub min_number : Number → Number → Number
min_number nan b = nan
min_number a nan = nan
min_number a b = if num_lt b a then b else a

abbrev pub mark_of : CoverSide → Option Quote → Number
mark_of buy none = neg_infinity
mark_of buy (some q) = max_number q.best_ask q.last_price
mark_of sell none = pos_infinity
mark_of sell (some q) = min_number q.best_bid q.last_price

pub record RearmPrices : Type 0 where
  pub stop_price : ℤ
  pub target_price : ℤ
  pub adjusted : Bool

abbrev pub abs_ℤ : ℤ → ℤ
abs_ℤ a = pos (pos_part a + neg_part a)

-- The two prices, moved off the marketable side of the mark.
pub moved_prices : CoverSide → ℤ → ℤ → ℤ → ℤ → ℤ × ℤ
moved_prices buy stop target mark width =
    let next_stop = if leb_ℤ stop mark then mark +ℤ width else stop in
    let next_target = if leb_ℤ mark target then mark -ℤ width else target in
    (next_stop, if leb_ℤ next_stop next_target then next_stop -ℤ width else next_target)
moved_prices sell stop target mark width =
    let next_stop = if leb_ℤ mark stop then mark -ℤ width else stop in
    let next_target = if leb_ℤ target mark then mark +ℤ width else target in
    (next_stop, if leb_ℤ next_target next_stop then next_stop +ℤ width else next_target)

abbrev pub rearm_width : ℤ → ℤ → ℤ → ℤ
rearm_width stop target tick = max_ℤ (abs_ℤ (stop -ℤ target)) (tick *ℤ pos 4)

abbrev pub rearm_at : CoverSide → ℤ → ℤ → Number → ℤ → RearmPrices
rearm_at side stop target (finite mark) tick =
    if not (ltb_ℤ (pos 0) tick)
    then record { stop_price = stop; target_price = target; adjusted = false }
    else let (next_stop, next_target) =
        moved_prices side stop target mark (rearm_width stop target tick) in
      record {
        stop_price = next_stop;
        target_price = next_target;
        adjusted = not (eqb_ℤ next_stop stop) || not (eqb_ℤ next_target target);
      }
rearm_at side stop target _ tick = record {
  stop_price = stop;
  target_price = target;
  adjusted = false;
}

unfoldable pub sanitize_rearm_protection_prices : CoverSide → ℤ → ℤ → Option Quote → ℤ → RearmPrices
unfolding moved_prices max_ℤ
sanitize_rearm_protection_prices side stop target quote tick =
    rearm_at side stop target (mark_of side quote) tick
