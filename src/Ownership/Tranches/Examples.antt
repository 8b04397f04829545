-- ===== src/Ownership/Tranches/Examples.antt =====
-- Three entries, one of them protected, and four contracts open at the venue.
use glitch_topstep.Ownership.Tranches.{
  Entry, has_live_protective_order, created_of, is_sorted_before, insert, sort, filled_entries,
  reverse_onto, unprotected, claim_order, claims, lookup, view, build_tranches,
}
use glitch_topstep.Ownership.Tranches.Totals.{total, occurrences}
use glitch_topstep.Ownership.Tranches.Assignment.{remaining, remaining-build_tranches}
use glitch_topstep.Prelude.{
  ℕ, ◌+◌, ◌≤◌, ◌≡◌, refl, Bool, ◌==◌, Option, none, some, List, [], ◌∷◌, arith, pos, max_ℤ, map,
}

abbrev first : Entry
first = record {
  intent_id = 1;
  effective_filled_quantity = 2;
  stop_order_id = none;
  target_order_id = none;
}

abbrev second : Entry
second = record {
  intent_id = 2;
  effective_filled_quantity = 3;
  stop_order_id = some 70;
  target_order_id = none;
}

abbrev third : Entry
third = record {
  intent_id = 3;
  effective_filled_quantity = 2;
  stop_order_id = none;
  target_order_id = none;
}

abbrev entries : List Entry
entries = third ∷ first ∷ second ∷ []

abbrev created : ℕ → Option ℕ
created i = some (1000 + i)

abbrev targeted : ℕ → Bool
targeted i = i == 3

entries-once : (i : ℕ) → occurrences i entries ≤ 1
unfolding occurrences total
entries-once i = ground arith

tranches_test :
    map (λ t. t.remaining_qty) (build_tranches entries created (pos 4) targeted) ≡ 1 ∷ 3 ∷ 0 ∷ []
unfolding build_tranches view lookup claims claim_order unprotected reverse_onto
    has_live_protective_order filled_entries sort insert is_sorted_before created_of max_ℤ
tranches_test = refl

remaining-build_tranches_example : remaining (build_tranches entries created (pos 4) targeted) ≡ 4
unfolding total max_ℤ
remaining-build_tranches_example =
    remaining-build_tranches entries created (pos 4) targeted entries-once
