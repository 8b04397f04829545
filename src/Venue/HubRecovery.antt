-- ===== src/Venue/HubRecovery.antt =====
-- HubRecoveryController of src/projectx/hub-recovery-controller.ts. Times are milliseconds, where the
-- source keeps them as ISO text and parses them to compare.
mod Watchdog
mod Examples
use glitch_topstep.Prelude.{
  ◌>>=◌, ltb, leb, ◌==◌, if◌then◌else◌, ltb→lt, leb→le, ==_iff, Bool-cases, and_left, and_right,
  Option-cases, is_some, is_none, or_else, length, is_empty, length-append, some_of, some_inj,
  every, keep, find, length-keep-le, All, All-map, All-keep, All-Mem, if-All, ℤ, pos, negsuc,
  pos_part, neg_part, sub_ℕ, ◌+ℤ◌, ◌-ℤ◌, ◌*ℤ◌, ◌≤ℤ◌, ◌<ℤ◌, ltb_ℤ, leb_ℤ, eqb_ℤ, max_ℤ, min_ℤ,
  +ℤ_parts, -ℤ_parts, eq_of_parts, int_laws, Number, nan, neg_infinity, pos_infinity, finite,
  is_finite, num_lt, num_eq, num_le, is_positive, ℕ, zero, suc, ◌+◌, ◌-◌, ◌*◌, ◌/◌, ◌%◌, ◌≤◌, ◌<◌,
  min, max, ◌≡◌, refl, sym, ap, ◌∙◌, ◌≢◌, ◌↔◌, ◌⊎◌, inl, inr, Bool, true, false, not, ◌&&◌, ◌||◌,
  Option, none, some, List, [], ◌∷◌, ◌++◌, map, take, take_all, arith, ℕ_discrete,
}

pub data VenueStreamKind : Type 0 where
  user market : VenueStreamKind

pub data HubRecoveryPhase : Type 0 where
  connected suspect reconnecting resubscribing reconciling recovered failed : HubRecoveryPhase

-- The controller with its constructor's deadline.
pub record HubRecovery : Type 0 where
  pub deadline_ms : ℕ
  pub phase : HubRecoveryPhase
  pub kind : Option VenueStreamKind
  pub started_at : Option ℕ
  pub last_progress_at : Option ℕ
  pub attempt : ℕ
  pub deadline_at : Option ℕ
  pub recovery_generation : ℕ

pub record HubRecoverySnapshot : Type 0 where
  pub active : Bool
  pub kind : Option VenueStreamKind
  pub phase : HubRecoveryPhase
  pub started_at : Option ℕ
  pub last_progress_at : Option ℕ
  pub attempt : ℕ
  pub deadline_at : Option ℕ
  pub generation : ℕ

abbrev pub default_hub_recovery_deadline_ms : ℕ
default_hub_recovery_deadline_ms = 120000

abbrev pub new_hub_recovery : ℕ → HubRecovery
new_hub_recovery deadline_ms = record {
  deadline_ms = deadline_ms;
  phase = connected;
  kind = none;
  started_at = none;
  last_progress_at = none;
  attempt = 0;
  deadline_at = none;
  recovery_generation = 0;
}

abbrev pub idle_hub_recovery_snapshot : HubRecoverySnapshot
idle_hub_recovery_snapshot = record {
  active = false;
  kind = none;
  phase = connected;
  started_at = none;
  last_progress_at = none;
  attempt = 0;
  deadline_at = none;
  generation = 0;
}

abbrev pub is_active_phase : HubRecoveryPhase → Bool
is_active_phase suspect = true
is_active_phase reconnecting = true
is_active_phase resubscribing = true
is_active_phase reconciling = true
is_active_phase _ = false

abbrev pub is_failed : HubRecoveryPhase → Bool
is_failed failed = true
is_failed _ = false

abbrev pub is_connected : HubRecoveryPhase → Bool
is_connected connected = true
is_connected _ = false

unfoldable pub snapshot : HubRecovery → HubRecoverySnapshot
snapshot h = record {
  active = is_active_phase h.phase || is_failed h.phase;
  kind = h.kind;
  phase = h.phase;
  started_at = h.started_at;
  last_progress_at = h.last_progress_at;
  attempt = h.attempt;
  deadline_at = h.deadline_at;
  generation = h.recovery_generation;
}

unfoldable pub begin_attempt :
    VenueStreamKind → HubRecoveryPhase → ℕ → HubRecovery → HubRecovery × ℕ
begin_attempt kind phase at h =
    if is_connected h.phase
    then (
      record h {
        recovery_generation = h.recovery_generation + 1;
        attempt = h.attempt + 1;
        kind = some kind;
        phase = phase;
        started_at = some at;
        last_progress_at = some at;
        deadline_at = some (at + h.deadline_ms);
      },
      h.recovery_generation + 1,
    )
    else (
      if is_failed h.phase
          then record h { attempt = h.attempt + 1; kind = some kind; phase = phase }
          else record h { attempt = h.attempt + 1 },
      h.recovery_generation,
    )

abbrev pub is_stale_callback : ℕ → HubRecovery → Bool
is_stale_callback generation h = not (generation == h.recovery_generation)

unfoldable pub mark_progress : HubRecoveryPhase → ℕ → ℕ → HubRecovery → HubRecovery × Bool
mark_progress phase expected at h =
    if is_stale_callback expected h
    then (h, false)
    else if is_failed h.phase || is_connected h.phase
    then (h, false)
    else (record h { phase = phase; last_progress_at = some at }, true)

unfoldable pub complete : ℕ → ℕ → HubRecovery → HubRecovery × Bool
complete expected at h = if is_stale_callback expected h then (h, false) else (
  record h {
    last_progress_at = some at;
    kind = none;
    started_at = none;
    deadline_at = none;
    phase = connected;
  },
  true,
)

unfoldable pub fail : ℕ → HubRecovery → HubRecovery × Bool
fail expected h =
    if is_stale_callback expected h then (h, false) else (record h { phase = failed }, true)

unfoldable pub deadline_expired : ℕ → HubRecovery → Bool
deadline_expired now h = elim h.deadline_at [ none ↦ false | some deadline ↦ leb deadline now ]
