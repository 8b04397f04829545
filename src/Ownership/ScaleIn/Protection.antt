-- ===== src/Ownership/ScaleIn/Protection.antt =====
-- Which entry may add to a position.
use glitch_topstep.Execution.Amendment.{Side}
use glitch_topstep.Ownership.ScaleIn.{
  Position, Order, allowed, is_expected_type, is_foreign_order, instrument_position,
  validate_scale_in, check_position,
}
use glitch_topstep.Prelude.{
  length, every, keep, ℕ, ◌≡◌, refl, true, not, Option, none, some, List, [], ◌∷◌, arith,
}

no_foreign :
    (contract account : ℕ) (orders : List Order)
    → length (keep (is_foreign_order contract account) orders) ≡ 0
    → every (λ o. not (is_foreign_order contract account o)) orders ≡ true
no_foreign contract account [] h = refl
no_foreign contract account (o ∷ orders) h = ground (arith, no_foreign contract account orders)

-- The account has a position in the contract, on the entry's own side, and none of its working orders
-- in the contract is other than protective.
pub record CanAdd (side : Side) (positions : List Position) (orders : List Order)
    (contract account : ℕ) : Type 0 where
  pub position : Position
  pub has_position : instrument_position positions contract account ≡ some position
  pub same_side : is_expected_type side position.position_type ≡ true
  pub all_protective : every (λ o. not (is_foreign_order contract account o)) orders ≡ true

check_position-allowed :
    (side : Side) (p : Position) (orders : List Order) (contract account : ℕ)
    → check_position side (some p) orders contract account ≡ allowed
    → (is_expected_type side p.position_type ≡ true)
      × (length (keep (is_foreign_order contract account) orders) ≡ 0)
check_position-allowed side p orders contract account h = ground arith

check_position-CanAdd :
    (side : Side) (positions : List Position) (orders : List Order) (contract account : ℕ)
    (o : Option Position)
    → instrument_position positions contract account ≡ o
    → check_position side o orders contract account ≡ allowed
    → CanAdd side positions orders contract account
check_position-CanAdd side positions orders contract account none e h = absurd (ground arith)
check_position-CanAdd side positions orders contract account (some p) e h =
    let (expected, alone) = check_position-allowed side p orders contract account h in
    record {
      position = p;
      has_position = e;
      same_side = expected;
      all_protective = no_foreign contract account orders alone;
    }

-- An entry may add to a position only if the account has one, on the same side, and only protective
-- orders work for it.
pub validate_scale_in-CanAdd :
    (side : Side) (positions : List Position) (orders : List Order) (contract account : ℕ)
    → validate_scale_in side positions orders contract account ≡ allowed
    → CanAdd side positions orders contract account
unfolding validate_scale_in
validate_scale_in-CanAdd side positions orders contract account h =
    check_position-CanAdd side positions orders contract account
      (instrument_position positions contract account) refl h
