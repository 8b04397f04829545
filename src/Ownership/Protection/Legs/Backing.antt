-- ===== src/Ownership/Protection/Legs/Backing.antt =====
-- Which order a leg rests on.
use mathlib.Core.List.{Memᴰ}
use glitch_topstep.Ownership.Protection.{Leg, leg_tag}
use glitch_topstep.Ownership.Protection.Legs.{
  OrderInfo, ProtectiveLeg, type_of_leg, price_of_leg, has_tag, is_child_of, on_instrument,
  leg_of_order, only_match, children, resolve_protective_leg, tag_of, is_named, is_older,
  newest_from, newest_or, resolve_intent_protective_leg,
}
use glitch_topstep.Prelude.{
  ◌==◌, if◌then◌else◌, and_left, is_empty, some_inj, keep, All, All-map, All-keep, All-Mem, if-All,
  pos, ℕ, ◌≡◌, refl, sym, ◌⊎◌, inl, inr, true, ◌&&◌, Option, none, some, List, [], ◌∷◌,
}

pub newest-All :
    (P : OrderInfo → Type 0) (intent : List ℕ) (leg : Leg) (best : OrderInfo) (os : List OrderInfo)
    → P best
    → All P os
    → P (newest_from intent leg best os)
unfolding newest_from
newest-All P intent leg best [] h hs = h
newest-All P intent leg best (o ∷ os) h (ho, hs) =
    newest-All P intent leg (if is_older intent leg best o then o else best) os
      (if-All P (is_older intent leg best o) o best ho h) hs

-- The order that a leg shows, if it shows one, and its price.
abbrev pub Shows : (OrderInfo → Type 0) → Leg → ProtectiveLeg → Type 0
Shows P leg l = (o : OrderInfo) → l.observed_order ≡ some o → P o × (l.price ≡ price_of_leg leg o)

pub Shows-order :
    (P : OrderInfo → Type 0) (tag : List ℕ) (leg : Leg) (o : OrderInfo)
    → P o
    → Shows P leg (leg_of_order tag leg o)
Shows-order P tag leg o h p e = rw (sym (some_inj e)) (h, refl)

pub Shows-only :
    (P : OrderInfo → Type 0) (tag : List ℕ) (leg : Leg) (os : List OrderInfo)
    → All P os
    → Shows P leg (only_match tag leg os)
Shows-only P tag leg [] h p e = absurd (cc e)
Shows-only P tag leg (o ∷ []) h p e = Shows-order P tag leg o h.0 p e
Shows-only P tag leg (o ∷ q ∷ os) h p e = absurd (cc e)

pub Shows-newest :
    (P : OrderInfo → Type 0) (intent : List ℕ) (leg : Leg) (os : List OrderInfo)
    (other : ProtectiveLeg)
    → All P os
    → Shows P leg other
    → Shows P leg (newest_or intent leg os other)
Shows-newest P intent leg [] other h ho = ho
Shows-newest P intent leg (o ∷ os) other h ho =
    Shows-order P (tag_of (newest_from intent leg o os)) leg (newest_from intent leg o os)
      (newest-All P intent leg o os h.0 h.1)

-- An order that protects the entry: one of those given, on the instrument, that names the intent and
-- the leg, or bears the first tag of the leg, or is a child of the entry.
pub record Backs (intent : List ℕ) (leg : Leg) (orders : List OrderInfo) (account contract : ℕ)
    (entry : Option ℕ) (o : OrderInfo) : Type 0 where
  pub given : Memᴰ o orders
  pub here : on_instrument account contract o ≡ true
  pub claimed :
      (is_named intent leg o ≡ true)
      ⊎ ((has_tag (leg_tag intent (pos 0) leg) o ≡ true)
          ⊎ ((e : ℕ) × (entry ≡ some e) × (is_child_of e o ≡ true)))

-- The orders on the instrument.
abbrev pub Here : List OrderInfo → ℕ → ℕ → OrderInfo → Type 0
Here orders account contract o = Memᴰ o orders × (on_instrument account contract o ≡ true)

pub Here-All :
    (orders : List OrderInfo) (account contract : ℕ)
    → All (Here orders account contract) (keep (on_instrument account contract) orders)
Here-All orders account contract =
    All-keep (λ o. Memᴰ o orders) (on_instrument account contract) orders (All-Mem orders)

pub children-Backs :
    (intent : List ℕ) (leg : Leg) (orders : List OrderInfo) (account contract : ℕ)
    (entry : Option ℕ)
    → All
        (Backs intent leg orders account contract entry)
        (children entry leg (keep (on_instrument account contract) orders))
children-Backs intent leg orders account contract none = tt
children-Backs intent leg orders account contract (some e) =
    let here = keep (on_instrument account contract) orders in
    let p = λ (o : OrderInfo). is_child_of e o && (o.order_type == type_of_leg leg) in
    All-map
      (λ o h. record {
        given = h.0.0;
        here = h.0.1;
        claimed = inr (inr (e, refl, and_left _ _ h.1));
      })
      (keep p here)
      (All-keep (Here orders account contract) p here (Here-All orders account contract))

pub resolve_protective_leg-Backs :
    (intent : List ℕ) (leg : Leg) (orders : List OrderInfo) (account contract : ℕ)
    (entry : Option ℕ)
    → Shows
        (Backs intent leg orders account contract entry)
        leg
        (resolve_protective_leg (leg_tag intent (pos 0) leg) leg orders account contract entry)
unfolding resolve_protective_leg
resolve_protective_leg-Backs intent leg orders account contract entry =
    let tag = leg_tag intent (pos 0) leg in
    let here = keep (on_instrument account contract) orders in
    let tagged = keep (has_tag tag) here in
    let P = Backs intent leg orders account contract entry in
    Shows-only P tag leg (if is_empty tagged then children entry leg here else tagged) (
      if-All (All P) (is_empty tagged) (children entry leg here) tagged
        (children-Backs intent leg orders account contract entry)
        (All-map (λ o h. record { given = h.0.0; here = h.0.1; claimed = inr (inl h.1) }) tagged
          (All-keep (Here orders account contract) (has_tag tag) here
            (Here-All orders account contract))))

pub resolve_intent-Backs :
    (intent : List ℕ) (leg : Leg) (orders : List OrderInfo) (account contract : ℕ)
    (entry : Option ℕ)
    → Shows
        (Backs intent leg orders account contract entry)
        leg
        (resolve_intent_protective_leg intent leg orders account contract entry)
unfolding resolve_intent_protective_leg
resolve_intent-Backs intent leg orders account contract entry =
    let here = keep (on_instrument account contract) orders in
    let P = Backs intent leg orders account contract entry in
    Shows-newest P intent leg (keep (is_named intent leg) here)
      (resolve_protective_leg (leg_tag intent (pos 0) leg) leg orders account contract entry)
      (All-map (λ o h. record { given = h.0.0; here = h.0.1; claimed = inl h.1 })
        (keep (is_named intent leg) here)
        (All-keep (Here orders account contract) (is_named intent leg) here
          (Here-All orders account contract)))
      (resolve_protective_leg-Backs intent leg orders account contract entry)
