-- ===== src/Execution/BracketVerification.antt =====
-- src/execution/bracket-verification.ts: what the packet for the agent says of the protection. A time
-- is the number of milliseconds that it parses to; a fill that was not observed is `none`, and so is
-- the inner option of one whose time does not parse.
pub mod Confirmed
mod Examples
use glitch_topstep.Ownership.Protection.Legs.{
  ProtectionStatus, unknown, pending_protection, proven, incomplete_protection,
}
use glitch_topstep.Prelude.{
  ◌>>=◌, ltb, leb, ◌==◌, if◌then◌else◌, ltb→lt, leb→le, ==_iff, Bool-cases, Option-cases, is_some,
  is_none, or_else, length, is_empty, length-append, some_of, some_inj, every, keep, find,
  length-keep-le, All, All-map, All-keep, All-Mem, if-All, ℤ, pos, negsuc, pos_part, neg_part,
  sub_ℕ, ◌+ℤ◌, ◌-ℤ◌, ◌*ℤ◌, ◌≤ℤ◌, ◌<ℤ◌, ltb_ℤ, leb_ℤ, eqb_ℤ, max_ℤ, min_ℤ, +ℤ_parts, -ℤ_parts,
  eq_of_parts, int_laws, Number, nan, neg_infinity, pos_infinity, finite, is_finite, num_lt, num_eq,
  num_le, is_positive, ℕ, zero, suc, ◌+◌, ◌-◌, ◌*◌, ◌/◌, ◌%◌, ◌≤◌, ◌<◌, min, max, ◌≡◌, refl, sym,
  ap, ◌∙◌, ◌≢◌, ◌↔◌, ◌⊎◌, inl, inr, Bool, true, false, not, ◌&&◌, ◌||◌, Option, none, some, List,
  [], ◌∷◌, ◌++◌, map, take, take_all, arith, ℕ_discrete,
}

pub data PacketProtectionStatus : Type 0 where
  pending confirmed failed not_known : PacketProtectionStatus

pub data VerificationReason : Type 0 where
  no_open_position reconciliation_incomplete sl_tp_verified_on_venue : VerificationReason
  venue_protection_mismatch bracket_verification_timeout fill_not_yet_observed : VerificationReason
  awaiting_sl_tp_on_venue protection_state_unresolved : VerificationReason

abbrev pub bracket_verification_timeout_ms : ℕ
bracket_verification_timeout_ms = 30000

pub record VerificationInput : Type 0 where
  pub position_open : Bool
  pub internal_status : ProtectionStatus
  pub fill_observed : Option (Option ℤ)
  pub state_complete : Bool
  pub now : Option ℤ
  pub timeout_ms : Option ℤ

pub record VerificationResult : Type 0 where
  pub protection_status : PacketProtectionStatus
  pub reason : VerificationReason
  pub elapsed_ms : Option ℤ
  pub timed_out : Bool

unfoldable pub elapsed_ms : Option (Option ℤ) → Option ℤ → Option ℤ
elapsed_ms (some (some start)) (some end) = some (max_ℤ (pos 0) (end -ℤ start))
elapsed_ms _ _ = none

abbrev pub has_elapsed : Option ℤ → ℤ → Bool
has_elapsed none timeout = false
has_elapsed (some elapsed) timeout = leb_ℤ timeout elapsed

abbrev pub result :
    PacketProtectionStatus → VerificationReason → Option ℤ → Bool → VerificationResult
result s r e t = record { protection_status = s; reason = r; elapsed_ms = e; timed_out = t }

abbrev pub of_internal_status :
    ProtectionStatus → Option (Option ℤ) → Option ℤ → ℤ → VerificationResult
of_internal_status proven fill elapsed timeout =
    result confirmed sl_tp_verified_on_venue elapsed false
of_internal_status incomplete_protection fill elapsed timeout =
    result failed venue_protection_mismatch elapsed false
of_internal_status pending_protection fill elapsed timeout =
    if has_elapsed elapsed timeout
    then result failed bracket_verification_timeout elapsed true
    else result pending (if is_none fill then fill_not_yet_observed else awaiting_sl_tp_on_venue)
        elapsed false
of_internal_status unknown fill elapsed timeout =
    result not_known protection_state_unresolved elapsed false

unfoldable pub resolve_packet_protection_status : VerificationInput → VerificationResult
unfolding elapsed_ms
resolve_packet_protection_status i =
    if not i.position_open
    then result not_known no_open_position none false
    else if not i.state_complete
    then result not_known reconciliation_incomplete none false
    else of_internal_status i.internal_status i.fill_observed (elapsed_ms i.fill_observed i.now)
        (or_else i.timeout_ms (pos bracket_verification_timeout_ms))
