-- ===== src/Ownership/ScaleIn.antt =====
-- src/ownership/scale-in.ts: whether an entry may add to a position. A tag is the list of its code
-- units. The group for a revision in the source's pattern, `(?:r\d+-)?`, is left out: what it matches
-- the part before it matches too.
pub mod Protection
use mathlib.Core.List.{reverse}
use glitch_topstep.Execution.Amendment.{Side, long, short}
use glitch_topstep.Prelude.{
  ◌>>=◌, ltb, leb, ◌==◌, if◌then◌else◌, ltb→lt, leb→le, ==_iff, Bool-cases, Option-cases, is_some,
  is_none, or_else, length, is_empty, length-append, some_of, some_inj, every, keep, find,
  length-keep-le, All, ℤ, pos, negsuc, pos_part, neg_part, sub_ℕ, ◌+ℤ◌, ◌-ℤ◌, ◌*ℤ◌, ◌≤ℤ◌, ◌<ℤ◌,
  ltb_ℤ, leb_ℤ, eqb_ℤ, max_ℤ, min_ℤ, +ℤ_parts, -ℤ_parts, eq_of_parts, int_laws, Number, nan,
  neg_infinity, pos_infinity, finite, is_finite, num_lt, num_eq, num_le, is_positive, ℕ, zero, suc,
  ◌+◌, ◌-◌, ◌*◌, ◌/◌, ◌≤◌, ◌<◌, min, max, ◌≡◌, refl, sym, ap, ◌∙◌, ◌≢◌, ◌↔◌, ◌⊎◌, inl, inr, Bool,
  true, false, not, ◌&&◌, ◌||◌, Option, none, some, List, [], ◌∷◌, ◌++◌, map, arith, ℕ_discrete,
}

pub data PositionType : Type 0 where
  flat_position long_position short_position : PositionType

pub record Position : Type 0 where
  pub account_id : ℕ
  pub contract_id : ℕ
  pub position_type : PositionType
  pub size : ℤ

pub record Order : Type 0 where
  pub account_id : ℕ
  pub contract_id : ℕ
  pub custom_tag : Option (List ℕ)

pub data ScaleIn : Type 0 where
  allowed no_position position_side_conflict working_order_ownership_unresolved : ScaleIn

-- What is left of the text after the prefix.
unfoldable pub strip_prefix : List ℕ → List ℕ → Option (List ℕ)
strip_prefix [] text = some text
strip_prefix (c ∷ prefix) [] = none
strip_prefix (c ∷ prefix) (d ∷ text) =
    let rest = strip_prefix prefix text in if c == d then rest else none

-- The four characters that `.` does not match.
abbrev pub is_line_end : ℕ → Bool
is_line_end c = (c == 10) || ((c == 13) || ((c == 8232) || (c == 8233)))

-- `.+`
abbrev pub is_wildcard : Option (List ℕ) → Bool
is_wildcard none = false
is_wildcard (some []) = false
is_wildcard (some (c ∷ cs)) = not (some_of is_line_end (c ∷ cs))

-- `glt-`, and `-SL` and `-TP` from the end.
abbrev pub tag_prefix : List ℕ
tag_prefix = b'g' ∷ b'l' ∷ b't' ∷ b'-' ∷ []

abbrev pub stop_suffix : List ℕ
stop_suffix = b'L' ∷ b'S' ∷ b'-' ∷ []

abbrev pub target_suffix : List ℕ
target_suffix = b'P' ∷ b'T' ∷ b'-' ∷ []

abbrev pub ends_protective : Option (List ℕ) → Bool
ends_protective none = false
ends_protective (some text) =
    is_wildcard (strip_prefix stop_suffix (reverse text))
    || is_wildcard (strip_prefix target_suffix (reverse text))

unfoldable pub is_protective_custom_tag : Option (List ℕ) → Bool
unfolding strip_prefix
is_protective_custom_tag none = false
is_protective_custom_tag (some text) = ends_protective (strip_prefix tag_prefix text)

abbrev pub is_flat : PositionType → Bool
is_flat flat_position = true
is_flat _ = false

abbrev pub is_instrument_position : ℕ → ℕ → Position → Bool
is_instrument_position contract account p =
    (p.account_id == account)
    && ((p.contract_id == contract)
        && (not (is_flat p.position_type) && not (eqb_ℤ p.size (pos 0))))

unfoldable pub instrument_position : List Position → ℕ → ℕ → Option Position
instrument_position positions contract account =
    find (is_instrument_position contract account) positions

abbrev pub is_expected_type : Side → PositionType → Bool
is_expected_type long long_position = true
is_expected_type short short_position = true
is_expected_type _ _ = false

abbrev pub is_foreign_order : ℕ → ℕ → Order → Bool
is_foreign_order contract account o =
    (o.account_id == account)
    && ((o.contract_id == contract) && not (is_protective_custom_tag o.custom_tag))

abbrev pub check_position : Side → Option Position → List Order → ℕ → ℕ → ScaleIn
check_position side none orders contract account = no_position
check_position side (some p) orders contract account =
    if not (is_expected_type side p.position_type)
    then position_side_conflict
    else if ltb 0 (length (keep (is_foreign_order contract account) orders))
    then working_order_ownership_unresolved
    else allowed

unfoldable pub validate_scale_in : Side → List Position → List Order → ℕ → ℕ → ScaleIn
unfolding instrument_position
validate_scale_in side positions orders contract account =
    check_position side (instrument_position positions contract account) orders contract account

abbrev pub action_for_type : PositionType → Option Side
action_for_type long_position = some long
action_for_type short_position = some short
action_for_type flat_position = none

abbrev pub side_of_position : Option Position → Option Side
side_of_position none = none
side_of_position (some p) = action_for_type p.position_type

abbrev pub if_allowed : ScaleIn → Side → Option Side
if_allowed allowed side = some side
if_allowed _ side = none

abbrev pub supported : Option Side → List Position → List Order → ℕ → ℕ → Option Side
supported none positions orders contract account = none
supported (some side) positions orders contract account =
    if_allowed (validate_scale_in side positions orders contract account) side

-- The side of the entry that may add to the position, if one may.
pub derive_scale_in_supported_action :
    List Position → List Order → ℕ → ℕ → ℕ → ℤ → Bool → Option Side
unfolding validate_scale_in instrument_position
derive_scale_in_supported_action positions orders contract account open_contracts capacity proven =
    if leb_ℤ capacity (pos 0) || (not proven || (open_contracts == 0))
    then none
    else supported (side_of_position (instrument_position positions contract account)) positions
        orders contract account
