-- ===== src/Ownership/Tranches.antt =====
-- buildTranches of src/ownership/tranches.ts: the contracts that the venue reports as open, spread
-- over the entries that filled. A time is a number, and 0 stands for the empty string of an entry
-- whose intent is unknown. The sort is stable, as that of the language is. Of a view only the
-- quantities are kept: the rest copies the entry.
mod Totals
mod Assignment
mod Examples
use glitch_topstep.Prelude.{
  ◌>>=◌, ltb, leb, ◌==◌, if◌then◌else◌, ltb→lt, leb→le, ==_iff, Bool-cases, Option-cases, is_some,
  is_none, or_else, length, is_empty, length-append, some_of, some_inj, every, keep, find,
  length-keep-le, All, ℤ, pos, negsuc, pos_part, neg_part, sub_ℕ, ◌+ℤ◌, ◌-ℤ◌, ◌*ℤ◌, ◌≤ℤ◌, ◌<ℤ◌,
  ltb_ℤ, leb_ℤ, eqb_ℤ, max_ℤ, min_ℤ, +ℤ_parts, -ℤ_parts, eq_of_parts, int_laws, Number, nan,
  neg_infinity, pos_infinity, finite, is_finite, num_lt, num_eq, num_le, is_positive, ℕ, zero, suc,
  ◌+◌, ◌-◌, ◌*◌, ◌/◌, ◌≤◌, ◌<◌, min, max, ◌≡◌, refl, sym, ap, ◌∙◌, ◌≢◌, ◌↔◌, ◌⊎◌, inl, inr, Bool,
  true, false, not, ◌&&◌, ◌||◌, Option, none, some, List, [], ◌∷◌, ◌++◌, map, arith, ℕ_discrete,
}

pub record Entry : Type 0 where
  pub intent_id : ℕ
  pub effective_filled_quantity : ℕ
  pub stop_order_id : Option ℕ
  pub target_order_id : Option ℕ

pub record Tranche : Type 0 where
  pub intent_id : ℕ
  pub filled_qty : ℕ
  pub remaining_qty : ℕ
  pub created_utc : ℕ

pub has_live_protective_order : Entry → Bool
has_live_protective_order e = is_some e.stop_order_id || is_some e.target_order_id

pub created_of : (ℕ → Option ℕ) → Entry → ℕ
created_of created e = or_else (created e.intent_id) 0

-- Not after, in the order of the comparator.
pub is_sorted_before : (ℕ → Option ℕ) → Entry → Entry → Bool
unfolding created_of
is_sorted_before created a b =
    ltb (created_of created a) (created_of created b)
    || ((created_of created a == created_of created b) && leb a.intent_id b.intent_id)

pub insert : (ℕ → Option ℕ) → Entry → List Entry → List Entry
unfolding is_sorted_before
insert created e [] = e ∷ []
insert created e (x ∷ xs) =
    let rest = insert created e xs in if is_sorted_before created e x then e ∷ x ∷ xs else x ∷ rest

pub sort : (ℕ → Option ℕ) → List Entry → List Entry
unfolding insert
sort created [] = []
sort created (x ∷ xs) = insert created x (sort created xs)

pub filled_entries : (ℕ → Option ℕ) → List Entry → List Entry
unfolding sort
filled_entries created entries =
    sort created (keep (λ e. ltb 0 e.effective_filled_quantity) entries)

pub reverse_onto : List Entry → List Entry → List Entry
reverse_onto [] done = done
reverse_onto (x ∷ xs) done = reverse_onto xs (x ∷ done)

pub unprotected : List Entry → List Entry
unfolding has_live_protective_order reverse_onto
unprotected filled = reverse_onto (keep (λ e. not (has_live_protective_order e)) filled) []

pub claim_order : (ℕ → Bool) → List Entry → List Entry
unfolding has_live_protective_order unprotected
claim_order targeted filled =
    keep has_live_protective_order filled
    ++ (keep (λ e. not (targeted e.intent_id)) (unprotected filled)
        ++ keep (λ e. targeted e.intent_id) (unprotected filled))

-- The loop over the claim order: what each entry still holds.
pub claims : ℕ → List Entry → List (ℕ × ℕ)
claims unassigned [] = []
claims unassigned (e ∷ es) =
    let claimed = min e.effective_filled_quantity unassigned in
    (e.intent_id, claimed) ∷ claims (unassigned - claimed) es

-- `map.get(id)`, where a later `set` replaces an earlier one.
pub lookup : ℕ → List (ℕ × ℕ) → Option ℕ
lookup i [] = none
lookup i (row ∷ rows) = elim (lookup i rows) [
  | some claimed ↦ some claimed
  | none ↦ if row.0 == i then some row.1 else none
]

pub view : (ℕ → Option ℕ) → List (ℕ × ℕ) → Entry → Tranche
unfolding lookup created_of
view created remaining e = record {
  intent_id = e.intent_id;
  filled_qty = e.effective_filled_quantity;
  remaining_qty = or_else (lookup e.intent_id remaining) 0;
  created_utc = created_of created e;
}

pub build_tranches : List Entry → (ℕ → Option ℕ) → ℤ → (ℕ → Bool) → List Tranche
unfolding view claims claim_order filled_entries
build_tranches entries created venue targeted =
    let filled = filled_entries created entries in
    map (view created (claims (pos_part (max_ℤ (pos 0) venue)) (claim_order targeted filled)))
      filled
