-- ===== src/Execution/Reduction/Examples.antt =====
-- One reduction, submitted and then flat.
use glitch_topstep.Execution.Reduction.{
  reduction_prepared, reduction_submitting, protected_active, flat, is_allowed, assert_transition,
  Reduction, Patch, by_exit_intent, patched, update, advance_found, advance_protected_reduction,
}
use glitch_topstep.Execution.Reduction.Advance.{
  advances, marks_flat, apply, run, Edge, reduction-Edge, run_flat,
}
use glitch_topstep.Prelude.{◌≡◌, refl, none, some, [], ◌∷◌, inl}

abbrev half : Reduction
half = record {
  reduction_id = 1;
  exit_intent_id = 7;
  target_intent_id = none;
  account_id = 3;
  contract_id = 4;
  exit_quantity = 1;
  position_size_before = 2;
  state = reduction_prepared;
  provider_exit_order_id = none;
  survivor_stop_order_id = some 50;
  survivor_target_order_id = some 51;
  detail = none;
  updated_utc = some 1000;
}

abbrev gone : Reduction
gone = record half { state = flat }

abbrev no_patch : Patch
no_patch = record {
  provider_exit_order_id = none;
  survivor_stop_order_id = none;
  survivor_target_order_id = none;
  detail = none;
}

submit_test :
    advance_protected_reduction 7 reduction_submitting (some 2000) no_patch (half ∷ [])
    ≡ inl (record (record half { state = reduction_submitting }) { updated_utc = some 2000 } ∷ [])
unfolding advance_protected_reduction by_exit_intent assert_transition is_allowed advance_found
    update patched
submit_test = refl

reduction-Edge_example :
    (q : Reduction) × (by_exit_intent 7
        (apply (advances 7 reduction_submitting (some 2000) no_patch) (half ∷ []))
      ≡ some q)
    × Edge half q
unfolding by_exit_intent
reduction-Edge_example =
    reduction-Edge (advances 7 reduction_submitting (some 2000) no_patch) 7 half (half ∷ []) refl

run_flat_example :
    by_exit_intent 7
      (run (advances 7 protected_active (some 2000) no_patch ∷ marks_flat none ∷ []) (gone ∷ []))
    ≡ some gone
unfolding by_exit_intent
run_flat_example =
    run_flat (advances 7 protected_active (some 2000) no_patch ∷ marks_flat none ∷ []) 7 gone
      (gone ∷ []) refl refl
