-- ===== src/Risk/Engine/Checks.antt =====
-- What each check of an entry establishes.
use glitch_topstep.Prelude.Results.{Result, ok, err, >>=-ok, >>-ok, require-ok}
use glitch_topstep.Domain.EntryReference.{resolve_executable_reference_price}
use glitch_topstep.Execution.Amendment.{Side}
use glitch_topstep.Execution.Brackets.{
  BracketTicks, BracketResult, computed, calculate_bracket_ticks,
}
use glitch_topstep.Risk.Mll.{Policy, Budget, risk_budget, liquidation_floor}
use glitch_topstep.Risk.Portfolio.{quantity_of}
use glitch_topstep.State.DataQuality.{Quality, evaluate_data_quality}
use glitch_topstep.Ownership.ScaleIn.Protection.{CanAdd, validate_scale_in-CanAdd}
use glitch_topstep.Ownership.ScaleIn.{ScaleIn}
use glitch_topstep.Risk.Engine.{
  TradeIntent, AccountSnapshot, RiskSettings, RiskContext, ValidatedEntry, Rejection, entry_side,
  required, check_quality, check_identity, check_version, check_exposure, scale_in_check,
}
use glitch_topstep.Risk.Engine.Entry.{
  EntryRequest, read_request, quantity_given, check_size, geometry_ok, brackets_or_error,
  entry_risk_usd, check_budget, price_entry, validate_entry_risk,
}
use glitch_topstep.Prelude.{
  ◌==◌, Bool-cases, Option-cases, ℤ, ◌+ℤ◌, ◌<ℤ◌, max_ℤ, int_laws, Number, ℕ, ◌+◌, ◌≤◌, ◌≡◌, refl,
  sym, ap, ◌⊎◌, inl, inr, true, false, Option, none, some, [], arith,
}

pub required-ok {ℓ} :
    {A : Type ℓ} (o : Option A) (e : Rejection) {a : A} → required o e ≡ ok a → o ≡ some a
required-ok none e h = cc h
required-ok (some b) e h = cc h

abbrev pub value_or {ℓ κ} : {E : Type ℓ} {A : Type κ} → A → Result E A → A
value_or d (ok a) = a
value_or d (err e) = d

pub check_budget-floor :
    (risk equity floor : ℤ) (policy : Policy) (b : Budget)
    → liquidation_floor policy ≡ some floor
    → check_budget risk equity policy ≡ ok b
    → floor +ℤ risk <ℤ equity
unfolding check_budget risk_budget max_ℤ
check_budget-floor risk equity floor policy b e h = grind int_laws

pub check_budget-ok :
    (risk equity : ℤ) (policy : Policy) (b : Budget)
    → check_budget risk equity policy ≡ ok b
    → (floor : ℤ) × (liquidation_floor policy ≡ some floor) × (floor +ℤ risk <ℤ equity)
unfolding check_budget risk_budget
check_budget-ok risk equity policy b h = elim (Option-cases (liquidation_floor policy)) [
  | inl e ↦ absurd (ground arith)
  | inr (floor, e) ↦ (floor, e, check_budget-floor risk equity floor policy b e h)
]

-- The steps of a validation that succeeded.
pub record Steps (i : TradeIntent) (s : AccountSnapshot) (policy : Policy) (settings : RiskSettings)
    (c : RiskContext) (now : ℤ) (v : ValidatedEntry) : Type 0 where
  pub side : Side
  pub has_side : entry_side i.action ≡ ok side
  pub quality_checked : check_quality (evaluate_data_quality settings.limits s.status now) ≡ ok tt
  pub identity_checked : check_identity i s c ≡ ok tt
  pub version_checked : check_version i s c now ≡ ok tt
  pub exposure_checked : check_exposure side s c ≡ ok tt
  pub request : EntryRequest
  pub has_request : read_request i ≡ ok request
  pub size_checked : check_size request s policy ≡ ok tt
  pub priced : price_entry side request s policy settings ≡ ok v

pub validate-Steps :
    (i : TradeIntent) (s : AccountSnapshot) (policy : Policy) (settings : RiskSettings)
    (c : RiskContext) (now : ℤ) (v : ValidatedEntry)
    → validate_entry_risk i s policy settings c now ≡ ok v
    → Steps i s policy settings c now v
unfolding validate_entry_risk
validate-Steps i s policy settings c now v h =
    let (side, e, h1) = >>=-ok (entry_side i.action) _ h in
    let (aged, h2) = >>-ok _ _ h1 in
    let (known, h3) = >>-ok _ _ h2 in
    let (identity, h4) = >>-ok _ _ h3 in
    let (version, h5) = >>-ok _ _ h4 in
    let (quoted, h6) = >>-ok _ _ h5 in
    let (exposure, h7) = >>-ok _ _ h6 in
    let (r, request, h8) = >>=-ok (read_request i) _ h7 in
    let (size, h9) = >>-ok _ _ h8 in
    let (range, h10) = >>-ok _ _ h9 in
    record {
      side = side;
      has_side = e;
      quality_checked = known;
      identity_checked = identity;
      version_checked = version;
      exposure_checked = exposure;
      request = r;
      has_request = request;
      size_checked = size;
      priced = h10;
    }

pub check_quality_complete : (q : Quality) → check_quality q ≡ ok tt → q.state_complete ≡ true
unfolding check_quality
check_quality_complete q h = ground arith

pub check_size-capacity :
    (r : EntryRequest) (s : AccountSnapshot) (policy : Policy)
    → check_size r s policy ≡ ok tt
    → 1 ≤ r.contracts
    → r.contracts + s.total_open_contracts ≤ policy.max_contracts
unfolding check_size
check_size-capacity r s policy h one = ground arith

pub quantity_given-positive : (o : Option Number) (q : ℕ) → quantity_given o ≡ some q → 1 ≤ q
unfolding quantity_of
quantity_given-positive o q h = ground arith

-- What was read of the intent.
abbrev pub Requested : TradeIntent → EntryRequest → Type 0
Requested i r =
    (1 ≤ r.contracts)
    × (quantity_given i.quantity ≡ some r.contracts)
    × (i.stop_loss ≡ some r.stop)
    × (i.take_profit ≡ some r.target)

pub read_request-Requested :
    (i : TradeIntent) (r : EntryRequest) → read_request i ≡ ok r → Requested i r
unfolding read_request
read_request-Requested i r h =
    let (quantity, given, h1) = >>=-ok (required (quantity_given i.quantity) _) _ h in
    let (_, h2) = >>-ok _ _ h1 in
    let (stop, stopped, h3) = >>=-ok (required i.stop_loss _) _ h2 in
    let (target, targeted, h4) = >>=-ok (required i.take_profit _) _ h3 in
    let has_quantity = required-ok _ _ given in
    rw (sym (ap (value_or r) h4)) (
      quantity_given-positive i.quantity quantity has_quantity,
      has_quantity,
      required-ok _ _ stopped,
      required-ok _ _ targeted,
    )

pub scale_in_check-allowed : (r : ScaleIn) → scale_in_check r ≡ ok tt → r ≡ ScaleIn.allowed
scale_in_check-allowed r h = ground arith

-- An account without exposure, or one whose exposure may be added to.
abbrev pub MayExpose : Side → AccountSnapshot → RiskContext → Type 0
MayExpose side s c =
    ((s.instrument_open_contracts ≡ 0) × (s.open_orders ≡ []))
    ⊎ CanAdd side s.positions s.open_orders s.contract_id c.expected_account_id

pub check_exposure-MayExpose :
    (side : Side) (s : AccountSnapshot) (c : RiskContext)
    → check_exposure side s c ≡ ok tt
    → MayExpose side s c
unfolding check_exposure
check_exposure-MayExpose side s c h = elim (Bool-cases (s.instrument_open_contracts == 0)) [
  | inl e ↦ inl (ground arith)
  | inr e ↦ inr (
      validate_scale_in-CanAdd side s.positions s.open_orders s.contract_id c.expected_account_id
        (scale_in_check-allowed _ (ground arith)))
]

-- Who may trade, and on which snapshot.
pub record IsIdentified (i : TradeIntent) (s : AccountSnapshot) (c : RiskContext) : Type 0 where
  pub can_trade : s.can_trade ≡ true
  pub account : s.account_id ≡ c.expected_account_id
  pub name : s.account_name ≡ c.expected_account_name
  pub intent_name : i.account ≡ c.expected_account_name
  pub instrument : i.instrument ≡ c.expected_instrument
  pub snapshot : i.snapshot_hash ≡ c.expected_snapshot_hash
  pub unlocked : c.daily_capture_locked ≡ false

pub check_identity-IsIdentified :
    (i : TradeIntent) (s : AccountSnapshot) (c : RiskContext)
    → check_identity i s c ≡ ok tt
    → IsIdentified i s c
unfolding check_identity
check_identity-IsIdentified i s c h = record {
  can_trade = ground arith;
  account = ground arith;
  name = ground arith;
  intent_name = ground arith;
  instrument = ground arith;
  snapshot = ground arith;
  unlocked = ground arith;
}

pub brackets_or_error-ok :
    (r : BracketResult) (b : BracketTicks) → brackets_or_error r ≡ ok b → r ≡ computed b
brackets_or_error-ok r b h = ground arith

-- How an entry was priced.
abbrev pub Priced :
    Side → EntryRequest → AccountSnapshot → Policy → RiskSettings → ValidatedEntry → Type 0
Priced side r s policy settings v =
    (v.quantity ≡ r.contracts)
    × (resolve_executable_reference_price side s.status.quote ≡ some v.reference_price)
    × (geometry_ok side v.reference_price r.stop r.target ≡ true)
    × (calculate_bracket_ticks side v.reference_price r.stop r.target s.tick_size
        ≡ computed (record { stop_ticks = v.stop_ticks; target_ticks = v.target_ticks }))
    × (v.risk_usd
        ≡ entry_risk_usd settings s.tick_value r.contracts
            (record { stop_ticks = v.stop_ticks; target_ticks = v.target_ticks }))
    × (check_budget v.risk_usd s.conservative_equity policy ≡ ok v.risk_budget)

pub price_entry-Priced :
    (side : Side) (r : EntryRequest) (s : AccountSnapshot) (policy : Policy)
    (settings : RiskSettings) (v : ValidatedEntry)
    → price_entry side r s policy settings ≡ ok v
    → Priced side r s policy settings v
unfolding price_entry
price_entry-Priced side r s policy settings v h =
    let (reference, resolved, h1) =
      >>=-ok (required (resolve_executable_reference_price side s.status.quote) _) _ h in
    let (shaped, h2) = >>-ok _ _ h1 in
    let (b, bracketed, h3) =
      >>=-ok
        (brackets_or_error (calculate_bracket_ticks side reference r.stop r.target s.tick_size)) _
        h2 in
    let (budget, budgeted, h4) = >>=-ok (check_budget _ s.conservative_equity policy) _ h3 in
    rw (sym (ap (value_or v) h4)) (
      refl,
      required-ok _ _ resolved,
      require-ok _ _ shaped,
      brackets_or_error-ok _ _ bracketed,
      refl,
      budgeted,
    )
