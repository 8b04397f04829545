-- ===== src/Domain/EntryReference.antt =====
-- src/domain/entry-reference.ts: the prices that an entry is measured from. A missing side is `none`.
-- Prices are whole numbers of half a price step, so that the middle of two is whole.
pub mod Reference
use glitch_topstep.Execution.Amendment.{Side, long, short}
use glitch_topstep.Prelude.{
  ◌>>=◌, ltb, leb, ◌==◌, if◌then◌else◌, ltb→lt, leb→le, ==_iff, Bool-cases, Option-cases, is_some,
  is_none, or_else, length, is_empty, length-append, some_of, some_inj, every, keep, find,
  length-keep-le, All, ℤ, pos, negsuc, pos_part, neg_part, sub_ℕ, ◌+ℤ◌, ◌-ℤ◌, ◌*ℤ◌, ◌≤ℤ◌, ◌<ℤ◌,
  ltb_ℤ, leb_ℤ, eqb_ℤ, max_ℤ, min_ℤ, +ℤ_parts, -ℤ_parts, eq_of_parts, int_laws, Number, nan,
  neg_infinity, pos_infinity, finite, is_finite, num_lt, num_eq, num_le, is_positive, ℕ, zero, suc,
  ◌+◌, ◌-◌, ◌*◌, ◌/◌, ◌≤◌, ◌<◌, min, max, ◌≡◌, refl, sym, ap, ◌∙◌, ◌≢◌, ◌↔◌, ◌⊎◌, inl, inr, Bool,
  true, false, not, ◌&&◌, ◌||◌, Option, none, some, List, [], ◌∷◌, ◌++◌, map, arith, ℕ_discrete,
}

pub record Quote : Type 0 where
  pub last_price : Number
  pub best_bid : Number
  pub best_ask : Number
  pub timestamp : Option ℤ

unfoldable pub is_executable_quote_geometry : Option Number → Option Number → Bool
is_executable_quote_geometry (some bid) (some ask) =
    if not (is_finite bid) || not (is_finite ask)
    then false
    else is_positive bid && (is_positive ask && num_lt bid ask)
is_executable_quote_geometry _ _ = false

-- A number that is finite and positive, as the amount that it is.
abbrev pub price_of : Number → Option ℤ
price_of (finite (pos (suc n))) = some (pos (suc n))
price_of _ = none

abbrev pub middle : Option ℤ → Option ℤ → Option ℤ
middle (some bid) (some ask) = some (pos ((pos_part bid + pos_part ask) / 2))
middle _ _ = none

abbrev pub or_try : Option ℤ → Option ℤ → Option ℤ
or_try (some price) _ = some price
or_try none other = other

unfoldable pub resolve_decision_reference_price : Option Quote → Option ℤ
unfolding is_executable_quote_geometry
resolve_decision_reference_price none = none
resolve_decision_reference_price (some q) = or_try (price_of q.last_price) (
    if is_executable_quote_geometry (some q.best_bid) (some q.best_ask)
    then middle (price_of q.best_bid) (price_of q.best_ask)
    else or_try (price_of q.best_ask) (price_of q.best_bid))

abbrev pub near_side : Side → Quote → Number
near_side long q = q.best_ask
near_side short q = q.best_bid

unfoldable pub resolve_executable_reference_price : Side → Option Quote → Option ℤ
unfolding is_executable_quote_geometry resolve_decision_reference_price
resolve_executable_reference_price side none = none
resolve_executable_reference_price side (some q) =
    if is_executable_quote_geometry (some q.best_bid) (some q.best_ask)
    then or_try (price_of (near_side side q)) (resolve_decision_reference_price (some q))
    else resolve_decision_reference_price (some q)
