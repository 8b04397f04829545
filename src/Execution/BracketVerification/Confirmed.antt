-- ===== src/Execution/BracketVerification/Confirmed.antt =====
-- When a protection is confirmed, and when it has failed.
use glitch_topstep.Ownership.Protection.{stop_leg, target_leg}
use glitch_topstep.Ownership.Protection.Legs.{
  OrderInfo, ProtectionStatus, pending_protection, proven, is_proven, bind_protection,
  aggregate_protection_status,
}
use glitch_topstep.Ownership.Protection.Legs.Proven.{Works, bind_protection-Works}
use glitch_topstep.Execution.BracketVerification.{
  confirmed, pending, not_known, failed, VerificationInput, elapsed_ms,
  bracket_verification_timeout_ms, resolve_packet_protection_status,
}
use glitch_topstep.Prelude.{
  and_left, and_right, is_empty, every, All, ℤ, pos, ◌+ℤ◌, ◌-ℤ◌, ◌≤ℤ◌, ◌<ℤ◌, ◌⊎◌, leb_ℤ, max_ℤ,
  int_laws, ℕ, ◌≡◌, sym, ◌∙◌, ◌↔◌, Bool, true, false, Option, none, some, List, [], ◌∷◌, arith,
}

-- An entry that holds contracts: its intent and the order that the venue gave it.
pub record OpenEntry : Type 0 where
  pub intent : List ℕ
  pub order : Option ℕ

-- The status of each entry's protection.
abbrev pub statuses : List OrderInfo → ℕ → ℕ → List OpenEntry → List ProtectionStatus
statuses orders account contract [] = []
statuses orders account contract (e ∷ es) =
    (bind_protection e.intent orders account contract true e.order).status
    ∷ statuses orders account contract es

-- Both legs of the entry work.
abbrev pub IsProtected : List OrderInfo → ℕ → ℕ → OpenEntry → Type 0
IsProtected orders account contract e =
    let r = bind_protection e.intent orders account contract true e.order in
    Works e.intent stop_leg orders account contract e.order r.stop
    × Works e.intent target_leg orders account contract e.order r.target

is_proven-eq : (s : ProtectionStatus) → is_proven s ≡ true → s ≡ proven
is_proven-eq s h = ground arith

All-IsProtected :
    (orders : List OrderInfo) (account contract : ℕ) (es : List OpenEntry)
    → every is_proven (statuses orders account contract es) ≡ true
    → All (IsProtected orders account contract) es
All-IsProtected orders account contract [] h = tt
All-IsProtected orders account contract (e ∷ es) h =
    let status = (bind_protection e.intent orders account contract true e.order).status in
    let works =
      bind_protection-Works e.intent orders account contract true e.order
        (is_proven-eq status (and_left _ _ h)) in
    ((works.1, works.2), All-IsProtected orders account contract es (and_right _ _ h))

aggregate_proven :
    (ss : List ProtectionStatus) (position_open : Bool)
    → aggregate_protection_status ss position_open ≡ proven
    → (is_empty ss ≡ false) × (every is_proven ss ≡ true)
unfolding aggregate_protection_status
aggregate_proven ss position_open h = ground arith

resolve_confirmed :
    (i : VerificationInput)
    → (resolve_packet_protection_status i).protection_status ≡ confirmed
    → (i.position_open ≡ true) × (i.state_complete ≡ true) × (i.internal_status ≡ proven)
unfolding resolve_packet_protection_status
resolve_confirmed i h = ground arith

resolve_timed_out :
    (i : VerificationInput)
    → (resolve_packet_protection_status i).timed_out ≡ true
    → (i.position_open ≡ true) × (i.internal_status ≡ pending_protection)
unfolding resolve_packet_protection_status
resolve_timed_out i h = ground arith

-- When the packet confirms the protection of the position, there are entries that hold it, and each is
-- protected: its stop and its target are priced orders of the venue on the instrument, of the leg's
-- type, that are tied to the entry.
pub confirmed-IsProtected :
    (i : VerificationInput) (orders : List OrderInfo) (account contract : ℕ) (es : List OpenEntry)
    → i.internal_status
      ≡ aggregate_protection_status (statuses orders account contract es) i.position_open
    → (resolve_packet_protection_status i).protection_status ≡ confirmed
    → (is_empty (statuses orders account contract es) ≡ false)
      × All (IsProtected orders account contract) es
confirmed-IsProtected i orders account contract es e h =
    let (_, _, status) = resolve_confirmed i h in
    let (some_entry, every_one) =
      aggregate_proven (statuses orders account contract es) i.position_open (sym e ∙ status) in
    (some_entry, All-IsProtected orders account contract es every_one)

elapsed_test :
    (start now : ℤ)
    → (leb_ℤ (pos bracket_verification_timeout_ms) (max_ℤ (pos 0) (now -ℤ start)) ≡ true)
      ↔ (start +ℤ pos 30000 ≤ℤ now)
unfolding max_ℤ
elapsed_test start now = grind int_laws

elapsed_before :
    (start now : ℤ)
    → (leb_ℤ (pos bracket_verification_timeout_ms) (max_ℤ (pos 0) (now -ℤ start)) ≡ false)
      ↔ (now <ℤ start +ℤ pos 30000)
unfolding max_ℤ
elapsed_before start now = grind int_laws

-- A protection that the account awaits, since a fill that was observed and with the timeout by default,
-- has failed exactly when the position is open, its state is complete and thirty seconds have passed
-- since the fill, and is pending exactly when they have not passed yet. It is not known exactly when no
-- position is open or the state is incomplete. It is timed out exactly when it has failed.
pub awaited_times_out :
    (i : VerificationInput) (start now : ℤ)
    → i.internal_status ≡ pending_protection
    → i.fill_observed ≡ some (some start)
    → i.now ≡ some now
    → i.timeout_ms ≡ none
    → let r = resolve_packet_protection_status i in
      ((r.protection_status ≡ failed)
        ↔ ((i.position_open ≡ true) × (i.state_complete ≡ true) × (start +ℤ pos 30000 ≤ℤ now)))
      × ((r.protection_status ≡ pending)
          ↔ ((i.position_open ≡ true) × (i.state_complete ≡ true) × (now <ℤ start +ℤ pos 30000)))
      × ((r.protection_status ≡ not_known)
          ↔ ((i.position_open ≡ false) ⊎ (i.state_complete ≡ false)))
      × ((r.timed_out ≡ true) ↔ (r.protection_status ≡ failed))
unfolding resolve_packet_protection_status elapsed_ms
awaited_times_out i start now pending_now filled at default =
    rw (pending_now, filled, at, default)
      (
        ground (arith, elapsed_test start now),
        ground (arith, elapsed_before start now),
        ground arith,
        ground arith,
      )
