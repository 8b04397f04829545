-- ===== src/Ownership/Protection/Legs/Proven.antt =====
-- What stands behind a protection that is proven.
use glitch_topstep.Ownership.Protection.Legs.Backing.{Shows, Backs, resolve_intent-Backs}
use glitch_topstep.Ownership.Protection.{Leg, stop_leg, target_leg}
use glitch_topstep.Ownership.Protection.Legs.{
  OrderInfo, ProtectiveLeg, ProtectionIssue, ResolvedProtection, pending_protection, proven,
  type_of_leg, price_of_leg, resolve_intent_protective_leg, leg_issues, bound, bind_protection,
}
use glitch_topstep.Prelude.{
  if◌then◌else◌, is_empty, if-All, ℤ, ℕ, ◌≡◌, refl, sym, ◌∙◌, Bool, true, false, not, Option, none,
  some, List, [], ◌∷◌, ◌++◌, arith,
}

pending-nil :
    (xs : List ProtectionIssue) (p q : ResolvedProtection)
    → p.status ≡ pending_protection
    → (if not (is_empty xs) then p else q).status ≡ proven
    → xs ≡ []
pending-nil [] p q e h = refl
pending-nil (x ∷ xs) p q e h = absurd (ground arith)

bound_proven :
    (position_open : Bool) (stop target : ProtectiveLeg)
    → (bound position_open stop target).status ≡ proven
    → (position_open ≡ true) × (leg_issues stop_leg stop ++ leg_issues target_leg target ≡ [])
unfolding bound
bound_proven false stop target h = absurd (ground arith)
bound_proven true stop target h =
    (refl, pending-nil (leg_issues stop_leg stop ++ leg_issues target_leg target) _ _ refl h)

bound_legs :
    (position_open : Bool) (stop target : ProtectiveLeg)
    → ((bound position_open stop target).stop ≡ stop)
      × ((bound position_open stop target).target ≡ target)
unfolding bound
bound_legs false stop target = (refl, refl)
bound_legs true stop target =
    if-All (λ (r : ResolvedProtection). (r.stop ≡ stop) × (r.target ≡ target))
      (not (is_empty (leg_issues stop_leg stop ++ leg_issues target_leg target))) _ _ (refl, refl)
      (refl, refl)

append-nil_parts : {A : Type 0} (xs ys : List A) → xs ++ ys ≡ [] → (xs ≡ []) × (ys ≡ [])
append-nil_parts [] ys h = (refl, h)
append-nil_parts (x ∷ xs) ys h = absurd (cc h)

-- A leg that works: its order is there, has the leg's type, and bears a price.
pub record Works (intent : List ℕ) (leg : Leg) (orders : List OrderInfo) (account contract : ℕ)
    (entry : Option ℕ) (l : ProtectiveLeg) : Type 0 where
  pub order : OrderInfo
  pub observed : l.observed_order ≡ some order
  pub backs : Backs intent leg orders account contract entry order
  pub right_type : order.order_type ≡ type_of_leg leg
  pub price : ℤ
  pub priced : price_of_leg leg order ≡ some price

observed-order :
    (leg : Leg) (tag : List ℕ) (observed : Option OrderInfo) (price : Option ℤ)
    → leg_issues leg (record { custom_tag = tag; observed_order = observed; price = price }) ≡ []
    → (o : OrderInfo) × (p : ℤ) × (observed ≡ some o)
      × (o.order_type ≡ type_of_leg leg)
      × (price ≡ some p)
observed-order leg tag none price h = absurd (ground arith)
observed-order leg tag (some o) none h = absurd (ground arith)
observed-order leg tag (some o) (some p) h = (o, p, refl, ground arith, refl)

leg-Works :
    (intent : List ℕ) (leg : Leg) (orders : List OrderInfo) (account contract : ℕ)
    (entry : Option ℕ) (l : ProtectiveLeg)
    → Shows (Backs intent leg orders account contract entry) leg l
    → leg_issues leg l ≡ []
    → Works intent leg orders account contract entry l
leg-Works intent leg orders account contract entry l shows h =
    let (o, p, seen, typed, priced) = observed-order leg l.custom_tag l.observed_order l.price h in
    let (backs, price) = shows o seen in
    record {
      order = o;
      observed = seen;
      backs = backs;
      right_type = typed;
      price = p;
      priced = sym price ∙ priced;
    }

-- Protection is proven only for an open position, and then both legs work: the stop and the target are
-- orders among those that the venue reported, of the account and the contract, of the leg's type and
-- with a price, and each is tied to the entry by its tag or as a child of the entry's order.
pub bind_protection-Works :
    (intent : List ℕ) (orders : List OrderInfo) (account contract : ℕ) (position_open : Bool)
    (entry : Option ℕ)
    → (bind_protection intent orders account contract position_open entry).status ≡ proven
    → (position_open ≡ true)
      × Works intent stop_leg orders account contract entry
          (bind_protection intent orders account contract position_open entry).stop
      × Works intent target_leg orders account contract entry
          (bind_protection intent orders account contract position_open entry).target
unfolding bind_protection
bind_protection-Works intent orders account contract position_open entry h =
    let stop = resolve_intent_protective_leg intent stop_leg orders account contract entry in
    let target = resolve_intent_protective_leg intent target_leg orders account contract entry in
    let (opened, no_issues) = bound_proven position_open stop target h in
    let (stop_none, target_none) =
      append-nil_parts (leg_issues stop_leg stop) (leg_issues target_leg target) no_issues in
    let legs = bound_legs position_open stop target in
    (
      opened,
      rw (legs.0) (
          leg-Works intent stop_leg orders account contract entry stop
            (resolve_intent-Backs intent stop_leg orders account contract entry) stop_none),
      rw (legs.1) (
          leg-Works intent target_leg orders account contract entry target
            (resolve_intent-Backs intent target_leg orders account contract entry) target_none),
    )
