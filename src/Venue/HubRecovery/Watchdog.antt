-- ===== src/Venue/HubRecovery/Watchdog.antt =====
-- The watchdog of src/projectx/hub-recovery-controller.ts over any sequence of calls.
use glitch_topstep.Venue.HubRecovery.{
  VenueStreamKind, HubRecoveryPhase, HubRecovery, is_active_phase, is_failed, is_connected,
  is_stale_callback, snapshot, begin_attempt, mark_progress, complete, fail, deadline_expired,
}
use glitch_topstep.Prelude.{
  leb, Bool-cases, All, ℕ, ◌+◌, ◌≡◌, refl, ◌∙◌, ◌≢◌, inl, inr, true, false, ◌||◌, some, List, [],
  ◌∷◌, arith,
}

pub data Event : Type 0 where
  begins : VenueStreamKind → HubRecoveryPhase → ℕ → Event
  progresses : HubRecoveryPhase → ℕ → ℕ → Event
  completes : ℕ → ℕ → Event
  fails : ℕ → Event

unfoldable pub apply : Event → HubRecovery → HubRecovery
unfolding begin_attempt mark_progress complete fail
apply (begins kind phase at) h = (begin_attempt kind phase at h).0
apply (progresses phase generation at) h = (mark_progress phase generation at h).0
apply (completes generation at) h = (complete generation at h).0
apply (fails generation) h = (fail generation h).0

unfoldable pub run : List Event → HubRecovery → HubRecovery
unfolding apply
run [] h = h
run (e ∷ es) h = run es (apply e h)

-- The event does not end the recovery of the generation: that is done by its own completion alone,
-- and a phase that is reported is one of a recovery under way.
abbrev pub KeepsOpen : ℕ → Event → Type 0
KeepsOpen g (begins kind phase at) = is_active_phase phase ≡ true
KeepsOpen g (progresses phase generation at) = is_active_phase phase ≡ true
KeepsOpen g (completes generation at) = generation ≢ g
KeepsOpen g (fails generation) = Unit {0}

-- A recovery of the generation is under way, or failed, with its clock as it started.
pub record IsOpenSince (g : ℕ) (at : ℕ) (d : ℕ) (h : HubRecovery) : Type 0 where
  pub is_active : is_active_phase h.phase || is_failed h.phase ≡ true
  pub generation_is : h.recovery_generation ≡ g
  pub started : h.started_at ≡ some at
  pub deadline : h.deadline_at ≡ some (at + d)

active-connected :
    (p : HubRecoveryPhase) → is_active_phase p || is_failed p ≡ true → is_connected p ≡ false
active-connected p a = ground arith

begun-IsOpenSince :
    (kind : VenueStreamKind) (phase : HubRecoveryPhase) (t : ℕ) (h : HubRecovery) (g at d : ℕ)
    → is_active_phase phase ≡ true
    → IsOpenSince g at d h
    → IsOpenSince g at d (begin_attempt kind phase t h).0
unfolding begin_attempt
begun-IsOpenSince kind phase t h g at d k i =
    rw (active-connected h.phase i.is_active) (elim (Bool-cases (is_failed h.phase)) [
      | inl y ↦ rw y (record {
        is_active = rw k refl;
        generation_is = i.generation_is;
        started = i.started;
        deadline = i.deadline;
      })
      | inr n ↦ rw n (record {
        is_active = i.is_active;
        generation_is = i.generation_is;
        started = i.started;
        deadline = i.deadline;
      })
    ])

marked-IsOpenSince :
    (phase : HubRecoveryPhase) (n t : ℕ) (h : HubRecovery) (g at d : ℕ)
    → is_active_phase phase ≡ true
    → IsOpenSince g at d h
    → IsOpenSince g at d (mark_progress phase n t h).0
unfolding mark_progress
marked-IsOpenSince phase n t h g at d k i = elim (Bool-cases (is_stale_callback n h)) [
  | inl y ↦ rw y i
  | inr fresh ↦ rw fresh (elim (Bool-cases (is_failed h.phase || is_connected h.phase)) [
    | inl y ↦ rw y i
    | inr z ↦ rw z (record {
      is_active = rw k refl;
      generation_is = i.generation_is;
      started = i.started;
      deadline = i.deadline;
    })
  ])
]

failed-IsOpenSince :
    (n : ℕ) (h : HubRecovery) (g at d : ℕ) → IsOpenSince g at d h → IsOpenSince g at d (fail n h).0
unfolding fail
failed-IsOpenSince n h g at d i = elim (Bool-cases (is_stale_callback n h)) [
  | inl y ↦ rw y i
  | inr fresh ↦ rw fresh (record {
    is_active = refl;
    generation_is = i.generation_is;
    started = i.started;
    deadline = i.deadline;
  })
]

is_stale-ne : (n : ℕ) (h : HubRecovery) → n ≢ h.recovery_generation → is_stale_callback n h ≡ true
is_stale-ne n h ne = ground (arith, ne)

completed-IsOpenSince :
    (n t : ℕ) (h : HubRecovery) (g at d : ℕ)
    → n ≢ g
    → IsOpenSince g at d h
    → IsOpenSince g at d (complete n t h).0
unfolding complete
completed-IsOpenSince n t h g at d ne i = rw (is_stale-ne n h (λ e. ne (e ∙ i.generation_is))) i

run-IsOpenSince :
    (g at d : ℕ) (es : List Event) (h : HubRecovery)
    → All (KeepsOpen g) es
    → IsOpenSince g at d h
    → IsOpenSince g at d (run es h)
unfolding run apply
run-IsOpenSince g at d [] h a i = i
run-IsOpenSince g at d (begins kind phase t ∷ es) h a i =
    run-IsOpenSince g at d es (apply (begins kind phase t) h) a.1
      (begun-IsOpenSince kind phase t h g at d a.0 i)
run-IsOpenSince g at d (progresses phase n t ∷ es) h a i =
    run-IsOpenSince g at d es (apply (progresses phase n t) h) a.1
      (marked-IsOpenSince phase n t h g at d a.0 i)
run-IsOpenSince g at d (completes n t ∷ es) h a i =
    run-IsOpenSince g at d es (apply (completes n t) h) a.1
      (completed-IsOpenSince n t h g at d a.0 i)
run-IsOpenSince g at d (fails n ∷ es) h a i =
    run-IsOpenSince g at d es (apply (fails n) h) a.1 (failed-IsOpenSince n h g at d i)

started-IsOpenSince :
    (kind : VenueStreamKind) (phase : HubRecoveryPhase) (at : ℕ) (h : HubRecovery)
    → is_connected h.phase ≡ true
    → is_active_phase phase ≡ true
    → IsOpenSince (h.recovery_generation + 1) at h.deadline_ms (begin_attempt kind phase at h).0
unfolding begin_attempt
started-IsOpenSince kind phase at h c k =
    rw c (record { is_active = rw k refl; generation_is = refl; started = refl; deadline = refl })

-- The recovery of a connected hub stays active, and its watchdog runs out exactly the deadline after
-- it began, whatever attempts, reports of progress, failures and stale completions follow, until it
-- is completed under its own generation: no retry of the same drop sets the clock back.
pub deadline_expired-run :
    (kind : VenueStreamKind) (phase : HubRecoveryPhase) (at now : ℕ) (es : List Event)
    (h : HubRecovery)
    → is_connected h.phase ≡ true
    → is_active_phase phase ≡ true
    → All (KeepsOpen (h.recovery_generation + 1)) es
    → let r : HubRecovery = run es (begin_attempt kind phase at h).0 in
      ((snapshot r).active ≡ true) × (deadline_expired now r ≡ leb (at + h.deadline_ms) now)
unfolding snapshot deadline_expired
deadline_expired-run kind phase at now es h c k a =
    let i : IsOpenSince (h.recovery_generation + 1) at h.deadline_ms
        (run es (begin_attempt kind phase at h).0) =
      run-IsOpenSince (h.recovery_generation + 1) at h.deadline_ms es
        (begin_attempt kind phase at h).0 a (started-IsOpenSince kind phase at h c k) in
    (i.is_active, rw i.deadline refl)
