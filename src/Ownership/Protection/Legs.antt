-- ===== src/Ownership/Protection/Legs.antt =====
-- src/ownership/protection.ts: the orders that a protection rests on. The times of orders are numbers
-- in the order of their texts. A sort of which only the first or the last element is read is the
-- search for that element.
pub mod Backing
pub mod Proven
use glitch_topstep.Ownership.Protection.{
  Leg, stop_leg, target_leg, ParsedTag, ProtectionCustomTags, leg_tag, parse_protective_tag,
}
use glitch_topstep.Prelude.{
  ◌>>=◌, ltb, leb, ◌==◌, if◌then◌else◌, ltb→lt, leb→le, ==_iff, Bool-cases, Option-cases, is_some,
  is_none, or_else, length, is_empty, length-append, some_of, some_inj, every, keep, find,
  length-keep-le, All, ℤ, pos, negsuc, pos_part, neg_part, sub_ℕ, ◌+ℤ◌, ◌-ℤ◌, ◌*ℤ◌, ◌≤ℤ◌, ◌<ℤ◌,
  ltb_ℤ, leb_ℤ, eqb_ℤ, max_ℤ, min_ℤ, +ℤ_parts, -ℤ_parts, eq_of_parts, int_laws, Number, nan,
  neg_infinity, pos_infinity, finite, is_finite, num_lt, num_eq, num_le, is_positive, ℕ, zero, suc,
  ◌+◌, ◌-◌, ◌*◌, ◌/◌, ◌%◌, ◌≤◌, ◌<◌, min, max, ◌≡◌, refl, sym, ap, ◌∙◌, ◌≢◌, ◌↔◌, ◌⊎◌, inl, inr,
  Bool, true, false, not, ◌&&◌, ◌||◌, Option, none, some, List, [], ◌∷◌, ◌++◌, map, take, take_all,
  arith, ℕ_discrete,
}

pub record OrderInfo : Type 0 where
  pub id : ℕ
  pub account_id : ℕ
  pub contract_id : ℕ
  pub update_timestamp : ℕ
  pub order_type : ℕ
  pub limit_price : Option ℤ
  pub stop_price : Option ℤ
  pub custom_tag : Option (List ℕ)
  pub parent_order_id : Option ℕ

pub data ProtectionStatus : Type 0 where
  unknown pending_protection proven incomplete_protection : ProtectionStatus

pub data ProtectionIssue : Type 0 where
  child_not_observed type_mismatch leg_unpriced : Leg → ProtectionIssue

pub record ProtectiveLeg : Type 0 where
  pub custom_tag : List ℕ
  pub observed_order : Option OrderInfo
  pub price : Option ℤ

pub record ResolvedProtection : Type 0 where
  pub status : ProtectionStatus
  pub issues : List ProtectionIssue
  pub stop : ProtectiveLeg
  pub target : ProtectiveLeg

-- STOP_ORDER_TYPE and TARGET_ORDER_TYPE
abbrev pub type_of_leg : Leg → ℕ
type_of_leg stop_leg = 4
type_of_leg target_leg = 1

abbrev pub price_of_leg : Leg → OrderInfo → Option ℤ
price_of_leg stop_leg o = o.stop_price
price_of_leg target_leg o = o.limit_price

abbrev pub same_text : List ℕ → List ℕ → Bool
same_text [] [] = true
same_text (c ∷ cs) (d ∷ ds) = (c == d) && same_text cs ds
same_text _ _ = false

abbrev pub same_leg : Leg → Leg → Bool
same_leg stop_leg stop_leg = true
same_leg target_leg target_leg = true
same_leg _ _ = false

abbrev pub has_tag : List ℕ → OrderInfo → Bool
has_tag tag o = elim o.custom_tag [ none ↦ false | some t ↦ same_text t tag ]

abbrev pub is_child_of : ℕ → OrderInfo → Bool
is_child_of entry o = elim o.parent_order_id [ none ↦ false | some parent ↦ parent == entry ]

abbrev pub on_instrument : ℕ → ℕ → OrderInfo → Bool
on_instrument account contract o = (o.account_id == account) && (o.contract_id == contract)

abbrev pub no_leg : List ℕ → ProtectiveLeg
no_leg tag = record { custom_tag = tag; observed_order = none; price = none }

abbrev pub leg_of_order : List ℕ → Leg → OrderInfo → ProtectiveLeg
leg_of_order tag leg o = record {
  custom_tag = tag;
  observed_order = some o;
  price = price_of_leg leg o;
}

-- `matches.length !== 1`
abbrev pub only_match : List ℕ → Leg → List OrderInfo → ProtectiveLeg
only_match tag leg (o ∷ []) = leg_of_order tag leg o
only_match tag leg _ = no_leg tag

abbrev pub children : Option ℕ → Leg → List OrderInfo → List OrderInfo
children none leg orders = []
children (some entry) leg orders =
    keep (λ o. is_child_of entry o && (o.order_type == type_of_leg leg)) orders

unfoldable pub resolve_protective_leg :
    List ℕ → Leg → List OrderInfo → ℕ → ℕ → Option ℕ → ProtectiveLeg
resolve_protective_leg tag leg orders account contract entry =
    let here = keep (on_instrument account contract) orders in
    let tagged = keep (has_tag tag) here in
    only_match tag leg (if is_empty tagged then children entry leg here else tagged)

abbrev pub tag_of : OrderInfo → List ℕ
tag_of o = or_else o.custom_tag []

-- The generation that the tag names, if it names this leg of this intent.
unfoldable pub named_generation : List ℕ → Leg → OrderInfo → Option ℕ
unfolding parse_protective_tag
named_generation intent leg o = do
  tag ← o.custom_tag
  p ← parse_protective_tag tag
  if same_text p.intent_id intent && same_leg p.leg leg then some p.generation else none

abbrev pub is_named : List ℕ → Leg → OrderInfo → Bool
is_named intent leg o = (o.order_type == type_of_leg leg) && is_some (named_generation intent leg o)

-- Whether the first order stands behind the second in the sort: by generation, then by time, then by id.
abbrev pub is_older : List ℕ → Leg → OrderInfo → OrderInfo → Bool
is_older intent leg o p =
    let g = or_else (named_generation intent leg o) 0 in
    let h = or_else (named_generation intent leg p) 0 in
    if g == h
    then (if o.update_timestamp == p.update_timestamp
        then ltb o.id p.id
        else ltb o.update_timestamp p.update_timestamp)
    else ltb g h

-- The first order of the sorted list.
pub newest_from : List ℕ → Leg → OrderInfo → List OrderInfo → OrderInfo
unfolding named_generation
newest_from intent leg best [] = best
newest_from intent leg best (o ∷ os) =
    let candidate = if is_older intent leg best o then o else best in
    newest_from intent leg candidate os

abbrev pub newest_or : List ℕ → Leg → List OrderInfo → ProtectiveLeg → ProtectiveLeg
newest_or intent leg [] other = other
newest_or intent leg (o ∷ os) other =
    let newest = newest_from intent leg o os in leg_of_order (tag_of newest) leg newest

unfoldable pub resolve_intent_protective_leg :
    List ℕ → Leg → List OrderInfo → ℕ → ℕ → Option ℕ → ProtectiveLeg
unfolding resolve_protective_leg named_generation newest_from
resolve_intent_protective_leg intent leg orders account contract entry =
    newest_or intent leg (keep (is_named intent leg) (keep (on_instrument account contract) orders))
      (resolve_protective_leg (leg_tag intent (pos 0) leg) leg orders account contract entry)

-- `!leg.providerOrderId`
abbrev pub is_observed : ProtectiveLeg → Bool
is_observed l = elim l.observed_order [ none ↦ false | some o ↦ ltb 0 o.id ]

abbrev pub has_type : Leg → ProtectiveLeg → Bool
has_type leg l = elim l.observed_order [ none ↦ false | some o ↦ o.order_type == type_of_leg leg ]

abbrev pub leg_issues : Leg → ProtectiveLeg → List ProtectionIssue
leg_issues leg l =
    if not (is_observed l)
    then child_not_observed leg ∷ []
    else if not (has_type leg l)
    then type_mismatch leg ∷ []
    else if is_none l.price
    then leg_unpriced leg ∷ []
    else []

-- What the two legs prove.
pub bound : Bool → ProtectiveLeg → ProtectiveLeg → ResolvedProtection
bound position_open stop target =
    let issues = leg_issues stop_leg stop ++ leg_issues target_leg target in
    if not position_open
    then record { status = unknown; issues = []; stop = stop; target = target }
    else if not (is_empty issues)
    then record { status = pending_protection; issues = issues; stop = stop; target = target }
    else record { status = proven; issues = []; stop = stop; target = target }

unfoldable pub bind_protection :
    List ℕ → List OrderInfo → ℕ → ℕ → Bool → Option ℕ → ResolvedProtection
unfolding resolve_intent_protective_leg bound
bind_protection intent orders account contract position_open entry =
    bound position_open
      (resolve_intent_protective_leg intent stop_leg orders account contract entry)
      (resolve_intent_protective_leg intent target_leg orders account contract entry)

abbrev pub is_incomplete : ProtectionStatus → Bool
is_incomplete incomplete_protection = true
is_incomplete _ = false

abbrev pub is_proven : ProtectionStatus → Bool
is_proven proven = true
is_proven _ = false

unfoldable pub aggregate_protection_status : List ProtectionStatus → Bool → ProtectionStatus
aggregate_protection_status entries position_open =
    if not position_open
    then unknown
    else if is_empty entries
    then pending_protection
    else if some_of is_incomplete entries
    then incomplete_protection
    else if every is_proven entries
    then proven
    else pending_protection
