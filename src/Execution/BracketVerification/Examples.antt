-- ===== src/Execution/BracketVerification/Examples.antt =====
-- A protected entry, and one that waits.
use glitch_topstep.Ownership.Protection.Legs.{
  OrderInfo, proven, pending_protection, bind_protection, aggregate_protection_status,
}
use glitch_topstep.Execution.BracketVerification.{
  VerificationInput, pending, not_known, failed, confirmed, resolve_packet_protection_status,
}
use glitch_topstep.Execution.BracketVerification.Confirmed.{
  OpenEntry, statuses, IsProtected, confirmed-IsProtected, awaited_times_out,
}
use glitch_topstep.Prelude.{
  ◌<ℤ◌, ◌⊎◌, false, is_empty, All, pos, ◌+ℤ◌, ◌≤ℤ◌, ℕ, ◌≡◌, refl, ◌↔◌, true, false, none, some,
  List, [], ◌∷◌,
}

abbrev entry : OpenEntry
entry = record { intent = b'a' ∷ b'b' ∷ []; order = some 4 }

-- The children of order 4, without tags.
abbrev child : ℕ → ℕ → OrderInfo
child id order_type = record {
  id = id;
  account_id = 11;
  contract_id = 5;
  update_timestamp = 100;
  order_type = order_type;
  limit_price = some (pos 41000);
  stop_price = some (pos 40000);
  custom_tag = none;
  parent_order_id = some 4;
}

abbrev orders : List OrderInfo
orders = child 5 4 ∷ child 6 1 ∷ []

abbrev confirmed_input : VerificationInput
confirmed_input = record {
  position_open = true;
  internal_status = proven;
  fill_observed = some (some (pos 1000));
  state_complete = true;
  now = some (pos 2000);
  timeout_ms = none;
}

entry_proven : proven ≡ aggregate_protection_status (statuses orders 11 5 (entry ∷ [])) true
unfolding aggregate_protection_status bind_protection
entry_proven = refl

is_confirmed : (resolve_packet_protection_status confirmed_input).protection_status ≡ confirmed
unfolding resolve_packet_protection_status
is_confirmed = refl

confirmed-IsProtected_example :
    (is_empty (statuses orders 11 5 (entry ∷ [])) ≡ false)
    × All (IsProtected orders 11 5) (entry ∷ [])
confirmed-IsProtected_example =
    confirmed-IsProtected confirmed_input orders 11 5 (entry ∷ []) entry_proven is_confirmed

abbrev awaited : VerificationInput
awaited = record confirmed_input { internal_status = pending_protection; now = some (pos 31000) }

awaited_times_out_example :
    let r = resolve_packet_protection_status awaited in
    ((r.protection_status ≡ failed)
      ↔ ((true ≡ true) × (true ≡ true) × (pos 1000 +ℤ pos 30000 ≤ℤ pos 31000)))
    × ((r.protection_status ≡ pending)
        ↔ ((true ≡ true) × (true ≡ true) × (pos 31000 <ℤ pos 1000 +ℤ pos 30000)))
    × ((r.protection_status ≡ not_known) ↔ ((true ≡ false) ⊎ (true ≡ false)))
    × ((r.timed_out ≡ true) ↔ (r.protection_status ≡ failed))
awaited_times_out_example = awaited_times_out awaited (pos 1000) (pos 31000) refl refl refl refl
