-- ===== src/Ownership/Tranches/Assignment.antt =====
-- How many of the venue's contracts the tranches hold, and which entries come first.
use mathlib.Core.Path.{subst}
use mathlib.Core.List.{append-nil}
use glitch_topstep.Ownership.Tranches.{
  Entry, Tranche, has_live_protective_order, filled_entries, unprotected, claim_order, claims, view,
  build_tranches,
}
use glitch_topstep.Ownership.Tranches.Totals.{
  total, total-claim_order, total-sort, total-unprotected, total-claims, occurrences, held,
  total-keep,
}
use glitch_topstep.Prelude.{
  ltb, ◌==◌, if◌then◌else◌, keep, ℤ, pos, pos_part, max_ℤ, ℕ, ◌+◌, ◌-◌, ◌≤◌, min, ◌≡◌, refl, ◌∙◌,
  Bool, not, Option, List, [], ◌∷◌, ◌++◌, map, arith,
}

abbrev pub quantity : Entry → ℕ
quantity e = e.effective_filled_quantity

pub remaining : List Tranche → ℕ
remaining [] = 0
remaining (t ∷ ts) = t.remaining_qty + remaining ts

remaining-view :
    (created : ℕ → Option ℕ) (rows : List (ℕ × ℕ)) (xs : List Entry)
    → remaining (map (view created rows) xs) ≡ total (held rows) xs
unfolding remaining view total held
remaining-view created rows [] = refl
remaining-view created rows (x ∷ xs) = omega (arith, remaining-view created rows xs)

total-positive :
    (xs : List Entry)
    → total quantity (keep (λ e. ltb 0 e.effective_filled_quantity) xs) ≡ total quantity xs
unfolding total
total-positive [] = refl
total-positive (x ∷ xs) = ground (arith, total-positive xs)

total-filled :
    (created : ℕ → Option ℕ) (xs : List Entry)
    → total quantity (filled_entries created xs) ≡ total quantity xs
unfolding filled_entries
total-filled created xs =
    total-sort quantity created (keep (λ e. ltb 0 e.effective_filled_quantity) xs)
    ∙ total-positive xs

occurrences-filled :
    (created : ℕ → Option ℕ) (i : ℕ) (xs : List Entry)
    → occurrences i (filled_entries created xs) ≤ occurrences i xs
unfolding occurrences filled_entries
occurrences-filled created i xs = omega (
  arith,
  total-sort (λ e. if e.intent_id == i then 1 else 0) created
      (keep (λ e. ltb 0 e.effective_filled_quantity) xs),
  total-keep (λ e. if e.intent_id == i then 1 else 0) (λ e. ltb 0 e.effective_filled_quantity) xs,
)

occurrences-claim_order :
    (targeted : ℕ → Bool) (i : ℕ) (xs : List Entry)
    → occurrences i (claim_order targeted xs) ≡ occurrences i xs
unfolding occurrences
occurrences-claim_order targeted i xs = total-claim_order _ targeted xs

held-all :
    (u : ℕ) (order : List Entry)
    → ((i : ℕ) → occurrences i (order ++ []) ≤ 1)
    → total (held (claims u order)) order ≡ min (total quantity order) u
held-all u order h =
    subst (λ (xs : List Entry). total (held (claims u xs)) order ≡ min (total quantity order) u)
      (append-nil order) (total-claims u order [] h)

-- Where no two entries have one intent, the tranches together hold every contract that the venue
-- reports open, as far as the entries filled that many, and never one more: whatever the brackets,
-- the times and the targeted exits.
pub remaining-build_tranches :
    (entries : List Entry) (created : ℕ → Option ℕ) (venue : ℤ) (targeted : ℕ → Bool)
    → ((i : ℕ) → occurrences i entries ≤ 1)
    → remaining (build_tranches entries created venue targeted)
      ≡ min (total quantity entries) (pos_part (max_ℤ (pos 0) venue))
unfolding build_tranches
remaining-build_tranches entries created venue targeted once =
    let filled = filled_entries created entries in
    let order = claim_order targeted filled in
    let u = pos_part (max_ℤ (pos 0) venue) in
    let all : (i : ℕ) → occurrences i (order ++ []) ≤ 1 = λ i. rw (append-nil) (
      omega (
        arith,
        once i,
        occurrences-filled created i entries,
        occurrences-claim_order targeted i filled,
      )) in
    remaining-view created (claims u order) filled
    ∙ omega (
      arith,
      total-claim_order (held (claims u order)) targeted filled,
      total-claim_order quantity targeted filled,
      total-filled created entries,
      held-all u order all,
    )

occurrences-claim_parts :
    (targeted : ℕ → Bool) (i : ℕ) (xs : List Entry)
    → occurrences i (
        keep has_live_protective_order xs
        ++ (keep (λ e. not (targeted e.intent_id)) (unprotected xs)
            ++ keep (λ e. targeted e.intent_id) (unprotected xs)))
      ≡ occurrences i xs
unfolding claim_order
occurrences-claim_parts targeted i xs = occurrences-claim_order targeted i xs

-- Where no two filled entries have one intent, the entries with a live stop or target come first:
-- together they hold all they filled, or every contract there is if that is less, and only what
-- they leave goes to the unprotected ones.
pub held-claim_order :
    (targeted : ℕ → Bool) (unassigned : ℕ) (filled : List Entry)
    → ((i : ℕ) → occurrences i filled ≤ 1)
    → (total
          (held (claims unassigned (claim_order targeted filled)))
          (keep has_live_protective_order filled)
        ≡ min (total quantity (keep has_live_protective_order filled)) unassigned)
      × (total (held (claims unassigned (claim_order targeted filled))) (unprotected filled)
          ≡ min
              (total quantity (unprotected filled))
              (unassigned - total quantity (keep has_live_protective_order filled)))
unfolding claim_order
held-claim_order targeted unassigned filled once =
    let live = keep has_live_protective_order filled in
    let order = claim_order targeted filled in
    let rows = claims unassigned order in
    let first : total (held rows) live ≡ min (total quantity live) unassigned =
      total-claims unassigned live
        (keep (λ e. not (targeted e.intent_id)) (unprotected filled)
          ++ keep (λ e. targeted e.intent_id) (unprotected filled))
        (λ i. rw (occurrences-claim_parts targeted i filled) (once i)) in
    let all : (i : ℕ) → occurrences i (order ++ []) ≤ 1 =
      λ i. rw (append-nil) (omega (arith, once i, occurrences-claim_order targeted i filled)) in
    (
      first,
      omega (
        arith,
        first,
        held-all unassigned order all,
        total-claim_order (held rows) targeted filled,
        total-claim_order quantity targeted filled,
        total-unprotected (held rows) filled,
        total-unprotected quantity filled,
      ),
    )
