-- ===== src/Risk/Portfolio/Admission.antt =====
-- What an allowed admission guarantees of the account.
use glitch_topstep.Risk.Portfolio.{
  Exposure, exposure_usd, total_from, Request, Answer, minus, foreign_open, admission_code, is_ok,
  rows_of, answer_for, evaluate_portfolio_admission,
}
use glitch_topstep.Prelude.{
  >>=-some, some_inj, ℤ, pos, ◌-ℤ◌, ◌<ℤ◌, int_laws, Number, finite, num_le, ℕ, ◌+◌, ◌≤◌, ◌≡◌, sym,
  ap, ◌∙◌, true, false, not, ◌&&◌, some, List, [], ◌∷◌, arith,
}

pub sum : List ℕ → ℕ
sum [] = 0
sum (x ∷ xs) = x + sum xs

-- One loss for each row, none above what the row's stop protects.
pub data Within : List ℕ → List Exposure → Type 0 where
  no_rows : Within [] []
  and_row :
      {loss usd : ℕ} {losses : List ℕ} {row : Exposure} {rows : List Exposure}
      → exposure_usd row ≡ some usd
      → loss ≤ usd
      → Within losses rows
      → Within (loss ∷ losses) (row ∷ rows)

total_from-sum :
    {losses : List ℕ} {rows : List Exposure}
    → Within losses rows
    → (start total : ℕ) → total_from start rows ≡ some total
    → start + sum losses ≤ total
unfolding sum total_from
total_from-sum no_rows start total h = omega (arith, some_inj h)
total_from-sum (and_row {loss} {usd} {losses} {row} {rows} e le w) start total h =
    let (found, f, rest) =
      >>=-some (exposure_usd row) (λ usd. total_from (start + usd) rows) total h in
    omega (arith, le, some_inj (sym e ∙ f), total_from-sum w (start + found) total rest)

code-allowed :
    (r : Request) (remaining : Number)
    → is_ok (admission_code r remaining) ≡ true
    → ((foreign_open r && not r.simultaneous_exposure_enabled) ≡ false)
      × (r.unprotected_existing_exposure ≡ false)
      × (num_le remaining (finite (pos 0)) ≡ false)
unfolding admission_code is_ok
code-allowed r remaining h = ground arith

answer_of :
    (r : Request) (a : Answer)
    → evaluate_portfolio_admission r ≡ some a
    → (total : ℕ) × (total_from 0 (rows_of r) ≡ some total) × (answer_for r total ≡ a)
unfolding evaluate_portfolio_admission
answer_of r a h =
    let (total, e, k) =
      >>=-some (total_from 0 (rows_of r)) (λ total. some (answer_for r total)) a h in
    (total, e, some_inj k)

above_zero : (z : ℤ) → num_le (finite z) (finite (pos 0)) ≡ false → pos 0 <ℤ z
above_zero z h = ground arith

minus-positive :
    (buffer : ℤ) (n : ℕ)
    → num_le (minus (finite buffer) n) (finite (pos 0)) ≡ false
    → pos n <ℤ buffer
unfolding minus
minus-positive buffer n h = omega (int_laws, above_zero (buffer -ℤ pos n) h)

-- Where the buffer is a finite amount and the admission allows the candidate, the rows that were
-- there, the pending ones and the candidate may all be stopped out at once, each at a loss up to
-- what its stop protects, and the account still stays above its hard loss floor: the losses are
-- less than the buffer. The existing exposure was protected, and any foreign one was opted in to.
pub allowed_floor :
    (r : Request) (buffer : ℤ) (a : Answer) (losses : List ℕ)
    → r.hard_loss_buffer_usd ≡ finite buffer
    → evaluate_portfolio_admission r ≡ some a
    → a.allowed ≡ true
    → Within losses (rows_of r)
    → (pos (sum losses) <ℤ buffer)
      × (r.unprotected_existing_exposure ≡ false)
      × ((foreign_open r && not r.simultaneous_exposure_enabled) ≡ false)
unfolding is_ok answer_for
allowed_floor r buffer a losses b h allowed w =
    let (total, e, k) = answer_of r a h in
    let (foreign, unprotected, above) =
      code-allowed r (minus r.hard_loss_buffer_usd total) (ap (λ a. a.allowed) k ∙ allowed) in
    (
      omega (
        int_laws,
        total_from-sum w 0 total e,
        minus-positive buffer total
            (sym (ap (λ b. num_le (minus b total) (finite (pos 0))) b) ∙ above),
      ),
      unprotected,
      foreign,
    )
