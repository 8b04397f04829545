-- ===== src/Execution/Reduction.antt =====
-- Protected reductions: the states and the transitions of src/domain/state-machines.ts, and the table
-- of src/storage/sqlite-execution-store.ts. A time is the number it parses to, or none; an error
-- leaves the table as it was.
mod Advance
mod Examples
use glitch_topstep.Prelude.{
  ◌>>=◌, ltb, leb, ◌==◌, if◌then◌else◌, ltb→lt, leb→le, ==_iff, Bool-cases, Option-cases, is_some,
  is_none, or_else, length, is_empty, length-append, some_of, some_inj, every, keep, find,
  length-keep-le, All, ℤ, pos, negsuc, pos_part, neg_part, sub_ℕ, ◌+ℤ◌, ◌-ℤ◌, ◌*ℤ◌, ◌≤ℤ◌, ◌<ℤ◌,
  ltb_ℤ, leb_ℤ, eqb_ℤ, max_ℤ, min_ℤ, +ℤ_parts, -ℤ_parts, eq_of_parts, int_laws, Number, nan,
  neg_infinity, pos_infinity, finite, is_finite, num_lt, num_eq, num_le, is_positive, ℕ, zero, suc,
  ◌+◌, ◌-◌, ◌*◌, ◌/◌, ◌≤◌, ◌<◌, min, max, ◌≡◌, refl, sym, ap, ◌∙◌, ◌≢◌, ◌↔◌, ◌⊎◌, inl, inr, Bool,
  true, false, not, ◌&&◌, ◌||◌, Option, none, some, List, [], ◌∷◌, ◌++◌, map, arith, ℕ_discrete,
}

pub data ReductionState : Type 0 where
  protected_active reduction_prepared reduction_submitting reduction_ambiguous : ReductionState
  reduced_protected degraded_stop_only flat failed : ReductionState

-- PROTECTED_REDUCTION_TRANSITIONS: whether the list of the first has the second.
pub is_allowed : ReductionState → ReductionState → Bool
is_allowed protected_active reduction_prepared = true
is_allowed protected_active flat = true
is_allowed reduction_prepared reduction_submitting = true
is_allowed reduction_prepared failed = true
is_allowed reduction_prepared flat = true
is_allowed reduction_submitting reduction_ambiguous = true
is_allowed reduction_submitting reduced_protected = true
is_allowed reduction_submitting failed = true
is_allowed reduction_submitting flat = true
is_allowed reduction_ambiguous reduced_protected = true
is_allowed reduction_ambiguous degraded_stop_only = true
is_allowed reduction_ambiguous failed = true
is_allowed reduction_ambiguous flat = true
is_allowed reduced_protected degraded_stop_only = true
is_allowed reduced_protected reduction_prepared = true
is_allowed reduced_protected flat = true
is_allowed degraded_stop_only reduced_protected = true
is_allowed degraded_stop_only failed = true
is_allowed degraded_stop_only flat = true
is_allowed failed flat = true
is_allowed _ _ = false

pub data Error : Type 0 where
  invalid_state_transition : ReductionState → ReductionState → Error
  state_transition_timestamp_invalid constraint_violated protected_reduction_not_found : Error

-- The error of assertTransition, if it throws.
pub assert_transition : Option ReductionState → ReductionState → Option ℕ → Option Error
unfolding is_allowed
assert_transition none to none = some state_transition_timestamp_invalid
assert_transition none to (some _) = none
assert_transition (some from) to time =
    if not (is_allowed from to)
    then some (invalid_state_transition from to)
    else if is_none time
    then some state_transition_timestamp_invalid
    else none

pub record Reduction : Type 0 where
  pub reduction_id : ℕ
  pub exit_intent_id : ℕ
  pub target_intent_id : Option ℕ
  pub account_id : ℕ
  pub contract_id : ℕ
  pub exit_quantity : ℕ
  pub position_size_before : ℕ
  pub state : ReductionState
  pub provider_exit_order_id : Option ℕ
  pub survivor_stop_order_id : Option ℕ
  pub survivor_target_order_id : Option ℕ
  pub detail : Option ℕ
  pub updated_utc : Option ℕ

pub record Patch : Type 0 where
  pub provider_exit_order_id : Option ℕ
  pub survivor_stop_order_id : Option ℕ
  pub survivor_target_order_id : Option ℕ
  pub detail : Option ℕ

-- SQL's COALESCE.
abbrev pub coalesce : Option ℕ → Option ℕ → Option ℕ
coalesce none old = old
coalesce (some new) old = some new

pub by_exit_intent : ℕ → List Reduction → Option Reduction
by_exit_intent i [] = none
by_exit_intent i (r ∷ rs) = if r.exit_intent_id == i then some r else by_exit_intent i rs

-- The primary key and the unique intent of the exit. The transition from nothing is checked at the
-- current time, which parses, so it never throws.
pub begin_protected_reduction : Reduction → List Reduction → List Reduction ⊎ Error
begin_protected_reduction r rs =
    if some_of (λ x. (x.reduction_id == r.reduction_id) || (x.exit_intent_id == r.exit_intent_id))
      rs
    then inr constraint_violated
    else inl (
        rs
        ++ record r { state = reduction_prepared; provider_exit_order_id = none; detail = none }
          ∷ [])

pub patched : ReductionState → Patch → Option ℕ → Reduction → Reduction
patched to patch now r = record r {
  state = to;
  provider_exit_order_id = coalesce patch.provider_exit_order_id r.provider_exit_order_id;
  survivor_stop_order_id = coalesce patch.survivor_stop_order_id r.survivor_stop_order_id;
  survivor_target_order_id = coalesce patch.survivor_target_order_id r.survivor_target_order_id;
  detail = coalesce patch.detail r.detail;
  updated_utc = now;
}

-- `UPDATE protected_reductions SET ... WHERE exit_intent_id = ?`
pub update : ℕ → (Reduction → Reduction) → List Reduction → List Reduction
update i f [] = []
update i f (r ∷ rs) =
    let rest = update i f rs in if r.exit_intent_id == i then f r ∷ rest else r ∷ rest

pub advance_found :
    Option Error → ℕ → ReductionState → Option ℕ → Patch → List Reduction → List Reduction ⊎ Error
unfolding update patched
advance_found (some e) i to now patch rs = inr e
advance_found none i to now patch rs = inl (update i (patched to patch now) rs)

pub advance_protected_reduction :
    ℕ → ReductionState → Option ℕ → Patch → List Reduction → List Reduction ⊎ Error
unfolding by_exit_intent assert_transition advance_found
advance_protected_reduction i to now patch rs = elim (by_exit_intent i rs) [
  | none ↦ inr protected_reduction_not_found
  | some r ↦ advance_found (assert_transition (some r.state) to now) i to now patch rs
]

pub is_over : ReductionState → Bool
is_over flat = true
is_over failed = true
is_over _ = false

-- The detail `venue_flat` is the number 0.
pub flattened : Option ℕ → Reduction → Reduction
unfolding is_over
flattened now r =
    if is_over r.state
    then r
    else record r { state = flat; updated_utc = now; detail = some (or_else r.detail 0) }

pub mark_protected_reductions_flat : Option ℕ → List Reduction → List Reduction
unfolding flattened
mark_protected_reductions_flat now [] = []
mark_protected_reductions_flat now (r ∷ rs) =
    flattened now r ∷ mark_protected_reductions_flat now rs
