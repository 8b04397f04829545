-- ===== src/Domain/EntryReference/Reference.antt =====
-- Which price an entry is measured from.
use glitch_topstep.Execution.Amendment.{Side}
use glitch_topstep.Domain.EntryReference.{
  Quote, is_executable_quote_geometry, price_of, near_side, resolve_decision_reference_price,
  resolve_executable_reference_price,
}
use glitch_topstep.Prelude.{ℤ, pos, ◌<ℤ◌, Number, finite, ◌≡◌, ◌⊎◌, false, some, arith}

price_of-positive : (n : Number) (p : ℤ) → price_of n ≡ some p → pos 0 <ℤ p
price_of-positive n p h = ground arith

-- On an executable quote an entry is measured from the side it trades against, which is a positive
-- amount. On any other it is measured from the last price or from a single side, and that too is
-- positive or missing.
pub resolve_executable-positive :
    (side : Side) (q : Quote) (p : ℤ)
    → resolve_executable_reference_price side (some q) ≡ some p
    → (pos 0 <ℤ p)
      × ((is_executable_quote_geometry (some q.best_bid) (some q.best_ask) ≡ false)
          ⊎ (near_side side q ≡ finite p))
unfolding resolve_executable_reference_price resolve_decision_reference_price
    is_executable_quote_geometry
resolve_executable-positive side q p h = ground arith
