-- ===== src/Risk/Portfolio.antt =====
-- src/risk/portfolio-risk.ts and src/risk/portfolio-selection.ts: what an account may have open at
-- once. Money is whole cents and distances are whole ticks.
mod Admission
mod Examples
use glitch_topstep.Prelude.{
  ◌>>=◌, ltb, leb, ◌==◌, if◌then◌else◌, ltb→lt, leb→le, ==_iff, Bool-cases, Option-cases, is_some,
  is_none, or_else, length, is_empty, length-append, some_of, some_inj, every, keep, find,
  length-keep-le, All, ℤ, pos, negsuc, pos_part, neg_part, sub_ℕ, ◌+ℤ◌, ◌-ℤ◌, ◌*ℤ◌, ◌≤ℤ◌, ◌<ℤ◌,
  ltb_ℤ, leb_ℤ, eqb_ℤ, max_ℤ, min_ℤ, +ℤ_parts, -ℤ_parts, eq_of_parts, int_laws, Number, nan,
  neg_infinity, pos_infinity, finite, is_finite, num_lt, num_eq, num_le, is_positive, ℕ, zero, suc,
  ◌+◌, ◌-◌, ◌*◌, ◌/◌, ◌≤◌, ◌<◌, min, max, ◌≡◌, refl, sym, ap, ◌∙◌, ◌≢◌, ◌↔◌, ◌⊎◌, inl, inr, Bool,
  true, false, not, ◌&&◌, ◌||◌, Option, none, some, List, [], ◌∷◌, ◌++◌, map, arith, ℕ_discrete,
}

pub record Exposure : Type 0 where
  pub contract_id : ℕ
  pub quantity : Number
  pub stop_distance_ticks : Number
  pub tick_value : Number
  pub fees_usd : Number
  pub slippage_ticks : Number

-- `Number.isInteger(quantity) && quantity >= 1`
unfoldable pub quantity_of : Number → Option ℕ
quantity_of (finite (pos (suc n))) = some (suc n)
quantity_of _ = none

-- `Number.isFinite(value) && value >= 0`
pub amount_of : Number → Option ℕ
amount_of (finite (pos n)) = some n
amount_of _ = none

-- Where the function throws, the result is `none`.
pub exposure_usd : Exposure → Option ℕ
exposure_usd e = do
  quantity ← quantity_of e.quantity
  distance ← amount_of e.stop_distance_ticks
  value ← amount_of e.tick_value
  fees ← amount_of e.fees_usd
  slippage ← amount_of e.slippage_ticks
  some (quantity * (distance * value + slippage * value + fees))

pub total_from : ℕ → List Exposure → Option ℕ
total_from total [] = some total
total_from total (row ∷ rows) = do usd ← exposure_usd row; total_from (total + usd) rows

pub record Request : Type 0 where
  pub hard_loss_buffer_usd : Number
  pub existing : List Exposure
  pub pending : List Exposure
  pub candidate : Exposure
  pub simultaneous_exposure_enabled : Bool
  pub foreign_exposure_present : Bool
  pub unprotected_existing_exposure : Bool

pub data Code : Type 0 where
  ok simultaneous_exposure_disabled portfolio_hard_loss_floor_breach portfolio_protection_unproven :
      Code

pub record Answer : Type 0 where
  pub allowed : Bool
  pub code : Code
  pub protected_downside_usd : ℕ
  pub remaining_buffer_usd : Number

pub minus : Number → ℕ → Number
minus (finite z) n = finite (z -ℤ pos n)
minus x _ = x

pub is_foreign : ℕ → Exposure → Bool
is_foreign contract row = not (row.contract_id == contract)

pub foreign_open : Request → Bool
foreign_open r =
    r.foreign_exposure_present
    || some_of (is_foreign r.candidate.contract_id) (r.existing ++ r.pending)

pub admission_code : Request → Number → Code
admission_code r remaining =
    if foreign_open r && not r.simultaneous_exposure_enabled
    then simultaneous_exposure_disabled
    else if r.unprotected_existing_exposure
    then portfolio_protection_unproven
    else if num_le remaining (finite (pos 0))
    then portfolio_hard_loss_floor_breach
    else ok

pub is_ok : Code → Bool
is_ok ok = true
is_ok _ = false

pub rows_of : Request → List Exposure
rows_of r = r.existing ++ r.pending ++ (r.candidate ∷ [])

pub answer_for : Request → ℕ → Answer
unfolding admission_code
answer_for r downside =
    let code = admission_code r (minus r.hard_loss_buffer_usd downside) in
    record {
      allowed = is_ok code;
      code = code;
      protected_downside_usd = downside;
      remaining_buffer_usd = minus r.hard_loss_buffer_usd downside;
    }

pub evaluate_portfolio_admission : Request → Option Answer
evaluate_portfolio_admission r = do
  downside ← total_from 0 (rows_of r)
  some (answer_for r downside)

pub data SelectionCode : Type 0 where
  selected selected_contract_not_allowlisted selected_contract_ambiguous : SelectionCode
  foreign_exposure_requires_accountwide_opt_in : SelectionCode

-- A contract of the universe: the instrument and the identity.
pub record Contract : Type 0 where
  pub instrument : ℕ
  pub contract_id : ℕ

pub is_selected : ℕ → Contract → Bool
is_selected selection c = c.contract_id == selection

pub validate_portfolio_selection : List Contract → ℕ → List ℕ → Bool → SelectionCode
unfolding is_selected
validate_portfolio_selection contracts selection open_ids opt_in =
    let matches = length (keep (is_selected selection) contracts) in
    if matches == 0
    then selected_contract_not_allowlisted
    else if not (matches == 1)
    then selected_contract_ambiguous
    else if some_of (λ id. not (id == selection)) open_ids && not opt_in
    then foreign_exposure_requires_accountwide_opt_in
    else selected
