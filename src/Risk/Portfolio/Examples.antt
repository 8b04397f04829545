-- ===== src/Risk/Portfolio/Examples.antt =====
-- The admission at a concrete account.
use glitch_topstep.Risk.Portfolio.{
  Exposure, exposure_usd, quantity_of, amount_of, total_from, Request, ok, Answer, minus,
  is_foreign, foreign_open, admission_code, is_ok, rows_of, answer_for,
  evaluate_portfolio_admission,
}
use glitch_topstep.Risk.Portfolio.Admission.{sum, Within, no_rows, and_row, allowed_floor}
use glitch_topstep.Prelude.{
  pos, ◌-ℤ◌, ◌<ℤ◌, finite, ◌≡◌, refl, true, false, not, ◌&&◌, some, [], ◌∷◌, arith,
}

abbrev one_lot : Exposure
one_lot = record {
  contract_id = 1;
  quantity = finite (pos 1);
  stop_distance_ticks = finite (pos 40);
  tick_value = finite (pos 500);
  fees_usd = finite (pos 200);
  slippage_ticks = finite (pos 2);
}

abbrev request : Request
request = record {
  hard_loss_buffer_usd = finite (pos 50000);
  existing = one_lot ∷ [];
  pending = [];
  candidate = one_lot;
  simultaneous_exposure_enabled = false;
  foreign_exposure_present = false;
  unprotected_existing_exposure = false;
}

abbrev answer : Answer
answer = record {
  allowed = true;
  code = ok;
  protected_downside_usd = 42400;
  remaining_buffer_usd = finite (pos 7600);
}

one_lot_test : exposure_usd one_lot ≡ some 21200
unfolding exposure_usd quantity_of amount_of
one_lot_test = refl

answer_test : evaluate_portfolio_admission request ≡ some answer
unfolding evaluate_portfolio_admission total_from exposure_usd quantity_of amount_of rows_of
    answer_for admission_code is_ok minus foreign_open is_foreign ◌-ℤ◌
answer_test = refl

stops : Within (21200 ∷ 20000 ∷ []) (rows_of request)
unfolding rows_of
stops = and_row one_lot_test (omega arith) (and_row one_lot_test (omega arith) no_rows)

allowed_floor_example :
    (pos (sum (21200 ∷ 20000 ∷ [])) <ℤ pos 50000)
    × (false ≡ false)
    × ((foreign_open request && not false) ≡ false)
allowed_floor_example =
    allowed_floor request (pos 50000) answer (21200 ∷ 20000 ∷ []) refl answer_test refl stops
