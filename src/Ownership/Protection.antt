-- ===== src/Ownership/Protection.antt =====
-- src/ownership/protection.ts: the tags of protective orders. A text is the list of its code units, and
-- its end is read from the reversed list. The children model the legs of a protection and the prices
-- of one that is placed anew.
pub mod RoundTrip
pub mod Legs
pub mod Generations
pub mod Rearm
mod Examples
use mathlib.Core.List.{reverse}
use glitch_topstep.Ownership.ScaleIn.{
  tag_prefix, stop_suffix, target_suffix, strip_prefix, is_wildcard,
}
use glitch_topstep.Prelude.{
  ◌>>=◌, ltb, leb, ◌==◌, if◌then◌else◌, ltb→lt, leb→le, ==_iff, Bool-cases, Option-cases, is_some,
  is_none, or_else, length, is_empty, length-append, some_of, some_inj, every, keep, find,
  length-keep-le, All, ℤ, pos, negsuc, pos_part, neg_part, sub_ℕ, ◌+ℤ◌, ◌-ℤ◌, ◌*ℤ◌, ◌≤ℤ◌, ◌<ℤ◌,
  ltb_ℤ, leb_ℤ, eqb_ℤ, max_ℤ, min_ℤ, +ℤ_parts, -ℤ_parts, eq_of_parts, int_laws, Number, nan,
  neg_infinity, pos_infinity, finite, is_finite, num_lt, num_eq, num_le, is_positive, ℕ, zero, suc,
  ◌+◌, ◌-◌, ◌*◌, ◌/◌, ◌%◌, ◌≤◌, ◌<◌, min, max, ◌≡◌, refl, sym, ap, ◌∙◌, ◌≢◌, ◌↔◌, ◌⊎◌, inl, inr,
  Bool, true, false, not, ◌&&◌, ◌||◌, Option, none, some, List, [], ◌∷◌, ◌++◌, map, take, take_all,
  arith, ℕ_discrete,
}

pub data Leg : Type 0 where
  stop_leg target_leg : Leg

pub record ProtectionCustomTags : Type 0 where
  pub entry : List ℕ
  pub stop : List ℕ
  pub target : List ℕ
  pub generation : ℤ

pub record ParsedTag : Type 0 where
  pub intent_id : List ℕ
  pub leg : Leg
  pub generation : ℕ

-- The decimal digits of a number, the last one first. One round per digit; `n + 1` rounds are enough.
pub digits_back : ℕ → ℕ → List ℕ
digits_back zero n = []
digits_back (suc rounds) n =
    let rest = digits_back rounds (n / 10) in (b'0' + n % 10) ∷ (if ltb n 10 then [] else rest)

pub value_back : List ℕ → ℕ
value_back [] = 0
value_back (c ∷ cs) = (c - b'0') + 10 * value_back cs

-- `String(n)`
unfoldable pub decimal : ℕ → List ℕ
unfolding digits_back
decimal n = reverse (digits_back (n + 1) n)

unfoldable pub protection_tag_base : List ℕ → List ℕ
protection_tag_base intent_id =
    let entry = take 64 (tag_prefix ++ intent_id) in
    if leb (length entry) 56 then entry else take 56 entry

abbrev pub suffix_of : Leg → List ℕ
suffix_of stop_leg = stop_suffix
suffix_of target_leg = target_suffix

-- `-r7`, and nothing for the first generation.
abbrev pub generation_mark : ℤ → List ℕ
generation_mark generation =
    if leb_ℤ generation (pos 0) then [] else b'-' ∷ b'r' ∷ decimal (pos_part generation)

abbrev pub leg_tag : List ℕ → ℤ → Leg → List ℕ
leg_tag intent_id generation leg =
    protection_tag_base intent_id ++ (generation_mark generation ++ reverse (suffix_of leg))

unfoldable pub protection_custom_tags : List ℕ → ℤ → ProtectionCustomTags
unfolding protection_tag_base
protection_custom_tags intent_id generation = record {
  entry = protection_tag_base intent_id;
  stop = leg_tag intent_id generation stop_leg;
  target = leg_tag intent_id generation target_leg;
  generation = max_ℤ (pos 0) generation;
}

abbrev pub is_digit : ℕ → Bool
is_digit c = leb b'0' c && leb c b'9'

-- The digits that a text begins with, and the rest.
pub take_digits : List ℕ → List ℕ × List ℕ
take_digits [] = ([], [])
take_digits (c ∷ cs) =
    let rest = take_digits cs in if is_digit c then (c ∷ rest.0, rest.1) else ([], c ∷ cs)

-- `r-`, which is `-r` from the end.
abbrev pub generation_separator : List ℕ
generation_separator = b'r' ∷ b'-' ∷ []

abbrev pub with_generation : Option (List ℕ) → List ℕ → Option (List ℕ × ℕ)
with_generation (some (c ∷ cs)) digits = some (c ∷ cs, value_back digits)
with_generation _ digits = none

-- `(.+?)(?:-r(\d+))?` from the end: what stands before the last mark of a generation, if there is one.
pub split_generation : List ℕ → Option (List ℕ × ℕ)
unfolding take_digits strip_prefix
split_generation text =
    let (digits, rest) = take_digits text in
    if is_empty digits
    then none
    else with_generation (strip_prefix generation_separator rest) digits

abbrev pub parsed : List ℕ → ℕ → Leg → Option ParsedTag
parsed back generation leg =
    if is_wildcard (some (reverse back))
    then some (record { intent_id = reverse back; leg = leg; generation = generation })
    else none

unfoldable pub parse_id : Leg → List ℕ → Option ParsedTag
unfolding split_generation
parse_id leg text = elim (split_generation text) [
  | none ↦ parsed text 0 leg
  | some (back, generation) ↦ parsed back generation leg
]

abbrev pub parse_leg : List ℕ → Option ParsedTag
parse_leg text = elim (strip_prefix stop_suffix text) [
  | some rest ↦ parse_id stop_leg rest
  | none ↦ do rest ← strip_prefix target_suffix text; parse_id target_leg rest
]

unfoldable pub parse_protective_tag : List ℕ → Option ParsedTag
unfolding strip_prefix
parse_protective_tag tag = do body ← strip_prefix tag_prefix tag; parse_leg (reverse body)

abbrev pub intent_of_stop : ParsedTag → Option (List ℕ)
intent_of_stop p = elim p.leg [ stop_leg ↦ some p.intent_id | target_leg ↦ none ]

unfoldable pub intent_id_from_stop_tag : List ℕ → Option (List ℕ)
unfolding parse_protective_tag
intent_id_from_stop_tag tag = do p ← parse_protective_tag tag; intent_of_stop p
