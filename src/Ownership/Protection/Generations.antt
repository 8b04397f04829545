-- ===== src/Ownership/Protection/Generations.antt =====
-- src/ownership/protection.ts, nextUnusedProtectionGeneration: tags that no order has borne.
use glitch_topstep.Ownership.Protection.{Leg, leg_tag, split_generation, parse_protective_tag}
use glitch_topstep.Ownership.Protection.RoundTrip.{IsNameable, parse-protection_tags}
use glitch_topstep.Ownership.Protection.Legs.{OrderInfo, same_text, has_tag}
use glitch_topstep.Prelude.{
  ◌>>=◌, ◌==◌, if◌then◌else◌, Option-cases, All, All-map, ℤ, pos, negsuc, pos_part, neg_part, ◌+ℤ◌,
  ◌≤ℤ◌, max_ℤ, +ℤ_parts, ℕ, ◌≤◌, ◌≡◌, refl, ap, ◌⊎◌, inl, inr, Bool, true, false, Option, none,
  some, List, [], ◌∷◌, arith,
}
use mathlib.Core.List.{reverse}

-- The generation of a tag that protects the intent.
unfoldable pub generation_in : List ℕ → List ℕ → Option ℕ
unfolding parse_protective_tag
generation_in intent tag = do
  p ← parse_protective_tag tag
  if same_text p.intent_id intent then some p.generation else none

unfoldable pub generation_of : List ℕ → OrderInfo → Option ℕ
unfolding generation_in
generation_of intent o = do tag ← o.custom_tag; generation_in intent tag

abbrev pub raised : ℤ → Option ℕ → ℤ
raised highest none = highest
raised highest (some generation) = max_ℤ highest (pos generation)

pub next_highest : List ℕ → ℕ → ℤ → OrderInfo → ℤ
unfolding generation_of
next_highest intent account highest o =
    if o.account_id == account then raised highest (generation_of intent o) else highest

pub highest_from : List ℕ → ℕ → ℤ → List OrderInfo → ℤ
unfolding next_highest
highest_from intent account highest [] = highest
highest_from intent account highest (o ∷ os) =
    highest_from intent account (next_highest intent account highest o) os

unfoldable pub next_unused_protection_generation : List ℕ → List OrderInfo → ℕ → ℤ
unfolding highest_from
next_unused_protection_generation intent orders account =
    highest_from intent account (negsuc 0) orders +ℤ pos 1

raised-ge : (highest : ℤ) (o : Option ℕ) → highest ≤ℤ raised highest o
unfolding max_ℤ
raised-ge highest o = ground arith

next_highest-ge :
    (intent : List ℕ) (account : ℕ) (highest : ℤ) (o : OrderInfo)
    → highest ≤ℤ next_highest intent account highest o
unfolding next_highest
next_highest-ge intent account highest o =
    ground (arith, raised-ge highest (generation_of intent o))

next_highest-of :
    (intent : List ℕ) (account : ℕ) (highest : ℤ) (o : OrderInfo) (g : ℕ)
    → o.account_id ≡ account
    → generation_of intent o ≡ some g
    → pos g ≤ℤ next_highest intent account highest o
unfolding next_highest max_ℤ
next_highest-of intent account highest o g here named = rw named (ground arith)

highest-grows :
    (intent : List ℕ) (account : ℕ) (os : List OrderInfo) (highest : ℤ)
    → highest ≤ℤ highest_from intent account highest os
unfolding highest_from
highest-grows intent account [] highest = omega arith
highest-grows intent account (o ∷ os) highest = omega (
  arith,
  next_highest-ge intent account highest o,
  highest-grows intent account os (next_highest intent account highest o),
)

-- The generations of the account's orders are no higher than the one found.
highest-bounds :
    (intent : List ℕ) (account : ℕ) (os : List OrderInfo) (highest : ℤ)
    → All
        (λ o.
          (g : ℕ)
          → o.account_id ≡ account
          → generation_of intent o ≡ some g
          → pos g ≤ℤ highest_from intent account highest os)
        os
unfolding highest_from
highest-bounds intent account [] highest = tt
highest-bounds intent account (o ∷ os) highest =
    let next = next_highest intent account highest o in
    (
      λ g here named. omega (
        arith,
        next_highest-of intent account highest o g here named,
        highest-grows intent account os next,
      ),
      highest-bounds intent account os next,
    )

same_text-eq : (a b : List ℕ) → same_text a b ≡ true → a ≡ b
same_text-eq [] [] h = refl
same_text-eq [] (d ∷ ds) h = cc h
same_text-eq (c ∷ cs) [] h = cc h
same_text-eq (c ∷ cs) (d ∷ ds) h = ground (arith, same_text-eq cs ds)

same_text_refl : (a : List ℕ) → same_text a a ≡ true
same_text_refl [] = refl
same_text_refl (c ∷ cs) = ground (arith, same_text_refl cs)

generation-in_tag :
    (id tag : List ℕ) (n : ℕ) (leg : Leg)
    → parse_protective_tag tag ≡ some (record { intent_id = id; leg = leg; generation = n })
    → generation_in id tag ≡ some n
unfolding generation_in
generation-in_tag id tag n leg h = rw (generation_in, h, same_text_refl id) refl

has_tag-generation :
    (id own : List ℕ) (n : ℕ) (leg : Leg) (o : OrderInfo)
    → parse_protective_tag own ≡ some (record { intent_id = id; leg = leg; generation = n })
    → has_tag own o ≡ true
    → generation_of id o ≡ some n
unfolding generation_of
has_tag-generation id own n leg o reads h = elim (Option-cases o.custom_tag) [
  | inl e ↦ absurd (ground arith)
  | inr (tag, e) ↦
      let same = same_text-eq tag own (ground arith) in
      rw (generation_of, e, same) (generation-in_tag id own n leg reads)
]

false_of : (b : Bool) → (b ≡ true → ⊥) → b ≡ false
false_of true h = absurd (h refl)
false_of false h = refl

-- No order of the account bears a tag of the next unused generation, so that a protection that is
-- placed anew is not taken for an earlier one. The conditions are those under which a tag is read back.
pub next_unused_fresh :
    (id : List ℕ) (orders : List OrderInfo) (account n : ℕ) (leg : Leg)
    → IsNameable id
    → (1 ≤ n) ⊎ (split_generation (reverse id) ≡ none)
    → next_unused_protection_generation id orders account ≡ pos n
    → All (λ o. o.account_id ≡ account → has_tag (leg_tag id (pos n) leg) o ≡ false) orders
unfolding next_unused_protection_generation
next_unused_fresh id orders account n leg name marked e =
    let top = highest_from id account (negsuc 0) orders in
    All-map
      (λ o bound here. false_of _ λ h. absurd (
        omega (
          arith,
          ap pos_part e,
          ap neg_part e,
          +ℤ_parts top (pos 1),
          bound n here (
              has_tag-generation id (leg_tag id (pos n) leg) n leg o
                (parse-protection_tags id n leg name marked) h),
        )))
      orders (highest-bounds id account orders (negsuc 0))
