-- ===== src/Risk/Mll/Floor.antt =====
-- Where the liquidation floor lies, and how it trails.
use glitch_topstep.Risk.Mll.{
  LossModel, trading_combine_eod, express_funded_eod, operator_provided_floor, Policy,
  trailing_from, trailing_floor, trailing_floor_relative, floor_of_model, liquidation_floor,
}
use glitch_topstep.Prelude.{
  Bool-cases, ℤ, pos, pos_part, neg_part, ◌+ℤ◌, ◌-ℤ◌, ◌≤ℤ◌, max_ℤ, min_ℤ, int_laws, ◌≡◌, refl, sym,
  ap, ◌∙◌, ◌≢◌, ◌⊎◌, inl, inr, true, false, ◌||◌, some, arith,
}

max_ℤ-bounds : (a b : ℤ) → (a ≤ℤ max_ℤ a b) × (b ≤ℤ max_ℤ a b)
unfolding max_ℤ
max_ℤ-bounds a b = ground arith

max_ℤ-least : (a b c : ℤ) → a ≤ℤ c → b ≤ℤ c → max_ℤ a b ≤ℤ c
unfolding max_ℤ
max_ℤ-least a b c h k = ground arith

min_ℤ-bounds : (a b : ℤ) → (min_ℤ a b ≤ℤ a) × (min_ℤ a b ≤ℤ b)
unfolding min_ℤ
min_ℤ-bounds a b = ground arith

min_ℤ-greatest : (a b c : ℤ) → c ≤ℤ a → c ≤ℤ b → c ≤ℤ min_ℤ a b
unfolding min_ℤ
min_ℤ-greatest a b c h k = ground arith

ruleset extrema = (int_laws, max_ℤ-bounds, min_ℤ-bounds)

trailing_from-bounds :
    (loss gain : ℤ)
    → pos 0 ≤ℤ loss
    → pos 0 ≤ℤ gain
    → (pos 0 -ℤ loss ≤ℤ trailing_from loss gain) × (trailing_from loss gain ≤ℤ pos 0)
unfolding trailing_from
trailing_from-bounds loss gain h k = (
  min_ℤ-greatest (pos 0) (gain -ℤ loss) (pos 0 -ℤ loss) (omega int_laws) (omega int_laws),
  (min_ℤ-bounds (pos 0) (gain -ℤ loss)).0,
)

trailing_from-mono :
    (loss gain more : ℤ) → gain ≤ℤ more → trailing_from loss gain ≤ℤ trailing_from loss more
unfolding trailing_from
trailing_from-mono loss gain more h =
    min_ℤ-greatest (pos 0) (more -ℤ loss) (min_ℤ (pos 0) (gain -ℤ loss))
      (min_ℤ-bounds (pos 0) (gain -ℤ loss)).0
      (omega (int_laws, min_ℤ-bounds (pos 0) (gain -ℤ loss)))

trailing_floor-bounds :
    (m : LossModel) (p : Policy)
    → pos 0 ≤ℤ p.initial_maximum_loss
    → (pos 0 -ℤ p.initial_maximum_loss ≤ℤ trailing_floor m p) × (trailing_floor m p ≤ℤ pos 0)
unfolding trailing_floor
trailing_floor-bounds trading_combine_eod p h =
    trailing_from-bounds p.initial_maximum_loss _ h (max_ℤ-bounds (pos 0) _).0
trailing_floor-bounds _ p h =
    trailing_from-bounds p.initial_maximum_loss _ h (max_ℤ-bounds (pos 0) _).0

relative-bounds :
    (p : Policy)
    → pos 0 ≤ℤ p.initial_maximum_loss
    → (pos 0 -ℤ p.initial_maximum_loss ≤ℤ trailing_floor_relative p)
      × (trailing_floor_relative p ≤ℤ pos 0)
unfolding trailing_floor_relative
relative-bounds p h = elim (Bool-cases (p.loss_floor_locked_at_zero || p.payout_processed)) [
  | inl e ↦ rw e (omega int_laws, omega arith)
  | inr e ↦ rw e (trailing_floor-bounds p.loss_model p h)
]

floor_trailing :
    (p : Policy)
    → p.loss_model ≢ operator_provided_floor
    → liquidation_floor p ≡ some (p.starting_balance +ℤ trailing_floor_relative p)
unfolding liquidation_floor
floor_trailing p m = by_model p.loss_model m
  where
    by_model :
        (m : LossModel)
        → m ≢ operator_provided_floor
        → floor_of_model m p ≡ some (p.starting_balance +ℤ trailing_floor_relative p)
    by_model trading_combine_eod h = unfold floor_of_model in refl
    by_model express_funded_eod h = unfold floor_of_model in refl
    by_model operator_provided_floor h = absurd (h refl)

relative_locked :
    (p : Policy)
    → ((p.loss_floor_locked_at_zero || p.payout_processed) ≡ false)
      ⊎ (p.starting_balance +ℤ trailing_floor_relative p ≡ p.starting_balance)
unfolding trailing_floor_relative
relative_locked p = elim (Bool-cases (p.loss_floor_locked_at_zero || p.payout_processed)) [
  | inl e ↦ inr (rw e (omega int_laws))
  | inr e ↦ inl e
]

-- Under a trailing model there is always a floor, in the absolute frame of the equity: between the
-- starting balance less the allowance and the starting balance, and at the starting balance once it
-- is locked or a payout was made.
pub liquidation_floor-bounds :
    (p : Policy)
    → p.loss_model ≢ operator_provided_floor
    → pos 0 ≤ℤ p.initial_maximum_loss
    → (floor : ℤ) × (liquidation_floor p ≡ some floor)
      × (p.starting_balance -ℤ p.initial_maximum_loss ≤ℤ floor)
      × (floor ≤ℤ p.starting_balance)
      × (((p.loss_floor_locked_at_zero || p.payout_processed) ≡ false)
          ⊎ (floor ≡ p.starting_balance))
liquidation_floor-bounds p m h =
    let (low, high) = relative-bounds p h in
    (
      p.starting_balance +ℤ trailing_floor_relative p,
      floor_trailing p m,
      omega (int_laws, low),
      omega (int_laws, high),
      relative_locked p,
    )

-- What a trading day can do to a policy: a higher end-of-day balance, the lock, or a payout.
pub data Day (p : Policy) : Policy → Type 0 where
  rises :
      (balance : ℤ)
      → p.highest_end_of_day_balance ≤ℤ balance
      → Day p (record p { highest_end_of_day_balance = balance })
  locks : Day p (record p { loss_floor_locked_at_zero = true })
  pays : Day p (record p { payout_processed = true })

pub data Days (p : Policy) : Policy → Type 0 where
  none_yet : Days p p
  then_day : {q r : Policy} → Days p q → Day q r → Days p r

trailing_floor-rises :
    (m : LossModel) (p : Policy) (balance : ℤ)
    → p.highest_end_of_day_balance ≤ℤ balance
    → trailing_floor m p ≤ℤ trailing_floor m (record p { highest_end_of_day_balance = balance })
unfolding trailing_floor
trailing_floor-rises trading_combine_eod p balance h =
    trailing_from-mono p.initial_maximum_loss _ _ (
      max_ℤ-least (pos 0) (p.highest_end_of_day_balance -ℤ p.starting_balance) _
        (max_ℤ-bounds (pos 0) _).0
        (omega (int_laws, max_ℤ-bounds (pos 0) (balance -ℤ p.starting_balance))))
trailing_floor-rises _ p balance h = trailing_from-mono p.initial_maximum_loss _ _ (
    max_ℤ-least (pos 0) p.highest_end_of_day_balance _ (max_ℤ-bounds (pos 0) _).0
      (omega (int_laws, max_ℤ-bounds (pos 0) balance)))

relative_rises :
    (p : Policy) (balance : ℤ)
    → p.highest_end_of_day_balance ≤ℤ balance
    → trailing_floor_relative p
      ≤ℤ trailing_floor_relative (record p { highest_end_of_day_balance = balance })
unfolding trailing_floor_relative
relative_rises p balance h = elim (Bool-cases (p.loss_floor_locked_at_zero || p.payout_processed)) [
  | inl e ↦ rw e (omega arith)
  | inr e ↦ rw e (trailing_floor-rises p.loss_model p balance h)
]

relative_locks :
    (p : Policy) → trailing_floor_relative (record p { loss_floor_locked_at_zero = true }) ≡ pos 0
unfolding trailing_floor_relative
relative_locks p = refl

relative_pays :
    (p : Policy) → trailing_floor_relative (record p { payout_processed = true }) ≡ pos 0
unfolding trailing_floor_relative
relative_pays p = ground arith

relative-Day :
    {p q : Policy}
    → Day p q
    → pos 0 ≤ℤ p.initial_maximum_loss
    → trailing_floor_relative p ≤ℤ trailing_floor_relative q
relative-Day {p} (rises balance h) k = relative_rises p balance h
relative-Day {p} locks k = rw (relative_locks p) (relative-bounds p k).1
relative-Day {p} pays k = rw (relative_pays p) (relative-bounds p k).1

-- What days leave alone.
record Same (p q : Policy) : Type 0 where
  model : q.loss_model ≡ p.loss_model
  start : q.starting_balance ≡ p.starting_balance
  loss : q.initial_maximum_loss ≡ p.initial_maximum_loss

Day-Same : {p q : Policy} → Day p q → Same p q
Day-Same (rises balance h) = record { model = refl; start = refl; loss = refl }
Day-Same locks = record { model = refl; start = refl; loss = refl }
Day-Same pays = record { model = refl; start = refl; loss = refl }

Days-mono :
    {p q : Policy}
    → Days p q
    → pos 0 ≤ℤ p.initial_maximum_loss
    → Same p q × (trailing_floor_relative p ≤ℤ trailing_floor_relative q)
Days-mono none_yet k = (record { model = refl; start = refl; loss = refl }, omega arith)
Days-mono {p} (then_day {q} ds d) k =
    let (same, below) = Days-mono ds k in
    let s = Day-Same d in
    (
      record {
        model = s.model ∙ same.model;
        start = s.start ∙ same.start;
        loss = s.loss ∙ same.loss;
      },
      omega (arith, below, relative-Day d (rw same.loss k)),
    )

-- Whatever days follow, the floor never falls: higher balances at the end of a day, the lock and a
-- payout can only raise it.
pub liquidation_floor-Days :
    (p q : Policy)
    → p.loss_model ≢ operator_provided_floor
    → pos 0 ≤ℤ p.initial_maximum_loss
    → Days p q
    → (before : ℤ) × (later : ℤ) × (liquidation_floor p ≡ some before)
      × (liquidation_floor q ≡ some later)
      × (before ≤ℤ later)
liquidation_floor-Days p q m h ds =
    let (same, below) = Days-mono ds h in
    (
      p.starting_balance +ℤ trailing_floor_relative p,
      q.starting_balance +ℤ trailing_floor_relative q,
      floor_trailing p m,
      floor_trailing q (λ e. m (sym same.model ∙ e)),
      omega (int_laws, below, ap pos_part same.start, ap neg_part same.start),
    )
