-- ===== src/Execution/Amendment/Envelope.antt =====
-- What an accepted amendment respects, and where a stop can get by any number of them.
use mathlib.Core.Path.{subst}
use glitch_topstep.Execution.Amendment.{
  Side, stop, target, Source, hermes_intent, Rejection, RiskEnvelope, Input, Verdict, accepted,
  rejected, is_tighten_only, protected_loss, is_worse, is_marketable, is_wrong_side, check_envelope,
  check_widening, check_market, check_entry, ◌then_check◌, check_leg, verdict, check_current,
  validate_amendment,
}
use glitch_topstep.Prelude.{
  Bool-cases, some_inj, All, ℤ, pos, ◌*ℤ◌, ◌≤ℤ◌, ◌<ℤ◌, ◌+◌, ◌≡◌, refl, sym, ap, ◌∙◌, ◌⊎◌, inl, inr,
  false, Option, none, some, List, [], ◌∷◌, arith,
}

-- Hermes widened the stop within the envelope.
abbrev pub WithinEnvelope : Input → Type 0
WithinEnvelope i =
    (i.source ≡ some hermes_intent)
    × (env : RiskEnvelope) × (entry : ℤ) × (tick : ℤ) × (i.envelope ≡ some env)
    × (i.average_entry ≡ some entry)
    × (i.tick_size ≡ some tick)
    × (is_worse i.side i.new_price env.stop_boundary_price ≡ false)
    × (protected_loss i.side entry i.new_price
        ≤ℤ pos (env.max_protected_loss_ticks + env.fees_slippage_reserve_ticks) *ℤ tick)

check_envelope-none :
    (side : Side) (new : ℤ) (env : Option RiskEnvelope) (entry tick : Option ℤ)
    → check_envelope side new env entry tick ≡ none
    → (e : RiskEnvelope) × (a : ℤ) × (t : ℤ) × (env ≡ some e)
      × (entry ≡ some a)
      × (tick ≡ some t)
      × (is_worse side new e.stop_boundary_price ≡ false)
      × (protected_loss side a new
          ≤ℤ pos (e.max_protected_loss_ticks + e.fees_slippage_reserve_ticks) *ℤ t)
unfolding check_envelope
check_envelope-none side new (some e) (some a) (some t) h =
    (e, a, t, refl, refl, refl, ground arith, ground arith)
check_envelope-none side new none _ _ h = cc
check_envelope-none side new (some e) none _ h = cc
check_envelope-none side new (some e) (some a) none h = cc

check_widening-none :
    (i : Input) (current : ℤ) (source : Option Source)
    → i.source ≡ source
    → check_widening i current source ≡ none
    → (is_worse i.side i.new_price current ≡ false) ⊎ WithinEnvelope i
unfolding check_widening is_tighten_only
check_widening-none i current none e h = inl (ground arith)
check_widening-none i current (some hermes_intent) e h =
    elim (Bool-cases (is_worse i.side i.new_price current)) [
      | inl worse ↦
          let c =
            check_envelope-none i.side i.new_price i.envelope i.average_entry i.tick_size
              (rw worse at h) in
          inr (e, c.0, c.1, c.2, c.3, c.4, c.5, c.6, c.7)
      | inr better ↦ inl better
    ]
check_widening-none i current (some _) e h = inl (ground arith)

check_market-none :
    (side : Side) (new : ℤ) (bid ask : Option ℤ)
    → check_market side new bid ask ≡ none
    → (b : ℤ) × (a : ℤ) × (bid ≡ some b) × (ask ≡ some a) × (is_marketable side new b a ≡ false)
unfolding check_market
check_market-none side new (some b) (some a) h = (b, a, refl, refl, ground arith)
check_market-none side new none _ h = cc
check_market-none side new (some b) none h = cc

check_entry-none :
    (side : Side) (new : ℤ) (entry : Option ℤ)
    → check_entry side new entry ≡ none
    → (a : ℤ) × (entry ≡ some a) × (pos 0 <ℤ a) × (is_wrong_side side new a ≡ false)
unfolding check_entry
check_entry-none side new none h = cc
check_entry-none side new (some a) h = (a, refl, ground arith, ground arith)

-- An accepted amendment had a positive current price and passed every check of its leg.
check_current_accepted :
    (i : Input) (source : Source) (price : Option ℤ)
    → check_current i price ≡ accepted source
    → (current : ℤ) × (price ≡ some current) × (check_leg i.leg i current ≡ none)
unfolding check_current verdict
check_current_accepted i source none h = cc
check_current_accepted i source (some current) h = (current, refl, ground arith)

then_check_none : (a b : Option Rejection) → (a then_check b) ≡ none → (a ≡ none) × (b ≡ none)
then_check_none none b h = (refl, h)
then_check_none (some e) b h = cc

-- An accepted stop stays off the market's side of the quote. It is no worse than the current one,
-- unless Hermes asks for it and it lies within the loss and the boundary of the original envelope.
pub accepted_stop :
    (i : Input) (source : Source)
    → i.leg ≡ stop
    → validate_amendment i ≡ accepted source
    → ((bid : ℤ) × (ask : ℤ) × (i.best_bid ≡ some bid)
        × (i.best_ask ≡ some ask)
        × (is_marketable i.side i.new_price bid ask ≡ false))
      × ((current : ℤ) × (i.current_price ≡ some current)
          × ((is_worse i.side i.new_price current ≡ false) ⊎ WithinEnvelope i))
unfolding validate_amendment check_leg
accepted_stop i source leg h =
    let (current, known, checked) = check_current_accepted i source i.current_price h in
    let (widening, market) =
      then_check_none (check_widening i current i.source)
        (check_market i.side i.new_price i.best_bid i.best_ask)
        (ap (λ l. check_leg l i current) (sym leg) ∙ checked) in
    (
      check_market-none i.side i.new_price i.best_bid i.best_ask market,
      (current, known, check_widening-none i current i.source refl widening),
    )

-- An accepted target is no worse than the current one, and takes a profit on the average entry.
pub accepted_target :
    (i : Input) (source : Source)
    → i.leg ≡ target
    → validate_amendment i ≡ accepted source
    → ((current : ℤ) × (i.current_price ≡ some current)
        × (is_worse i.side i.new_price current ≡ false))
      × ((entry : ℤ) × (i.average_entry ≡ some entry)
          × (pos 0 <ℤ entry)
          × (is_wrong_side i.side i.new_price entry ≡ false))
unfolding validate_amendment check_leg
accepted_target i source leg h =
    let (current, known, checked) = check_current_accepted i source i.current_price h in
    let at_target = ap (λ l. check_leg l i current) (sym leg) ∙ checked in
    (
      (current, known, not_worse current at_target),
      check_entry-none i.side i.new_price i.average_entry (entry_checked current at_target),
    )
  where
    not_worse : (c : ℤ) → check_leg target i c ≡ none → is_worse i.side i.new_price c ≡ false
    not_worse c e = ground arith

    entry_checked :
        (c : ℤ)
        → check_leg target i c ≡ none
        → check_entry i.side i.new_price i.average_entry ≡ none
    entry_checked c e = ground arith

-- A request against the stop as it then stands: accepted, it is the new stop.
abbrev settle_stop : ℤ → ℤ → Verdict → ℤ
settle_stop price new (accepted _) = new
settle_stop price new (rejected _) = price

pub amend_stop : ℤ → Input → ℤ
amend_stop price i =
    settle_stop price i.new_price (validate_amendment (record i { current_price = some price }))

pub amend_all : ℤ → List Input → ℤ
amend_all price [] = price
amend_all price (i ∷ is) = amend_all (amend_stop price i) is

-- A request for the stop of one position, under its original envelope.
abbrev pub ForStop : Side → RiskEnvelope → Input → Type 0
ForStop side env i = (i.side ≡ side) × (i.leg ≡ stop) × (i.envelope ≡ some env)

is_worse_trans :
    (side : Side) (a b c : ℤ)
    → is_worse side a b ≡ false
    → is_worse side b c ≡ false
    → is_worse side a c ≡ false
unfolding is_worse
is_worse_trans side a b c h k = ground arith

amend_stop-bound :
    (side : Side) (env : RiskEnvelope) (price : ℤ) (i : Input) (v : Verdict)
    → validate_amendment (record i { current_price = some price }) ≡ v
    → ForStop side env i
    → is_worse side price env.stop_boundary_price ≡ false
    → is_worse side (settle_stop price i.new_price v) env.stop_boundary_price ≡ false
amend_stop-bound side env price i (rejected r) e f h = h
amend_stop-bound side env price i (accepted source) e f h =
    bound (accepted_stop (record i { current_price = some price }) source f.1 e).1
  where
    bound :
        (current : ℤ) × (some price ≡ some current)
          × ((is_worse i.side i.new_price current ≡ false)
              ⊎ WithinEnvelope (record i { current_price = some price }))
        → is_worse side i.new_price env.stop_boundary_price ≡ false
    bound (current, e, inl better) =
        is_worse_trans side i.new_price price env.stop_boundary_price
          (subst (λ (s : Side). is_worse s i.new_price price ≡ false) f.0
            (subst (λ (p : ℤ). is_worse i.side i.new_price p ≡ false) (sym (some_inj e)) better))
          h
    bound (current, e, inr (_, env', entry, tick, known, _, _, inside, _)) =
        subst (λ (s : Side). is_worse s i.new_price env.stop_boundary_price ≡ false) f.0
          (subst (λ (w : RiskEnvelope). is_worse i.side i.new_price w.stop_boundary_price ≡ false)
            (some_inj (sym known ∙ f.2)) inside)

-- A stop that starts no worse than the boundary of its envelope never gets worse than it, however
-- many requests follow, from whatever sources, at whatever quotes.
pub amend_all-bound :
    (side : Side) (env : RiskEnvelope) (is : List Input) (price : ℤ)
    → All (ForStop side env) is
    → is_worse side price env.stop_boundary_price ≡ false
    → is_worse side (amend_all price is) env.stop_boundary_price ≡ false
unfolding amend_all amend_stop
amend_all-bound side env [] price a h = h
amend_all-bound side env (i ∷ is) price a h = amend_all-bound side env is (amend_stop price i) a.1 (
    amend_stop-bound side env price i (validate_amendment (record i { current_price = some price }))
      refl a.0 h)
