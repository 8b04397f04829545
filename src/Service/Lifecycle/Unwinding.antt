-- ===== src/Service/Lifecycle/Unwinding.antt =====
-- How far a shutdown unwinds, and what may be closed after it.
use glitch_topstep.Service.Lifecycle.{
  Disposable, Supervisor, Drained, dispose_all, drain, requires_shutdown_retention, closed,
  run_shutdown_failure_recovery,
}
use glitch_topstep.Prelude.{
  if◌then◌else◌, Bool-cases, is_empty, All, ℕ, ◌≡◌, refl, sym, ap, ◌∙◌, inl, inr, Bool, true, false,
  not, ◌||◌, List, [], ◌∷◌, ◌++◌, arith,
}

-- Disposed of, or let go since it is not critical.
abbrev pub is_released : (ℕ → Bool) → Disposable → Bool
is_released works d = works d.name || not d.critical

pub failed_names : (ℕ → Bool) → List Disposable → List ℕ
failed_names works [] = []
failed_names works (d ∷ ds) =
    let rest = failed_names works ds in if works d.name then rest else d.name ∷ rest

-- The resources in front, all released; then nothing, or a critical one that failed and what was
-- acquired before it.
pub data Unwound (works : ℕ → Bool) (ds : List Disposable) (r : Drained) : Type 0 where
  fully :
      All (λ d. is_released works d ≡ true) ds
      → r.left ≡ []
      → r.critical_failed ≡ []
      → r.failed ≡ failed_names works ds
      → Unwound works ds r
  halted :
      (front : List Disposable) (d : Disposable) (back : List Disposable)
      → ds ≡ front ++ d ∷ back
      → All (λ x. is_released works x ≡ true) front
      → is_released works d ≡ false
      → r.left ≡ d ∷ back
      → r.critical_failed ≡ d.name ∷ []
      → r.failed ≡ failed_names works front ++ d.name ∷ []
      → Unwound works ds r

-- One released resource more in front.
abbrev name_first : (ℕ → Bool) → Disposable → List ℕ → List ℕ
name_first works d names = if works d.name then names else d.name ∷ names

failed_names-first :
    (works : ℕ → Bool) (d : Disposable) (ds : List Disposable)
    → failed_names works (d ∷ ds) ≡ name_first works d (failed_names works ds)
unfolding failed_names
failed_names-first works d ds = refl

name_first-append :
    (works : ℕ → Bool) (d : Disposable) (xs ys : List ℕ)
    → name_first works d (xs ++ ys) ≡ name_first works d xs ++ ys
name_first-append works d xs ys = ground arith

released-Unwound :
    (works : ℕ → Bool) (d : Disposable) (ds : List Disposable) (r r' : Drained)
    → is_released works d ≡ true
    → r'.left ≡ r.left
    → r'.critical_failed ≡ r.critical_failed
    → r'.failed ≡ name_first works d r.failed
    → Unwound works ds r
    → Unwound works (d ∷ ds) r'
released-Unwound works d ds r r' w l c f (fully a left crit failed) =
    fully (w, a) (l ∙ left) (c ∙ crit)
      (f ∙ ap (name_first works d) failed ∙ sym (failed_names-first works d ds))
released-Unwound works d ds r r' w l c f (halted front x back e a n left crit failed) =
    halted (d ∷ front) x back (ap (λ xs. d ∷ xs) e) (w, a) n (l ∙ left) (c ∙ crit)
      (f
        ∙ ap (name_first works d) failed
        ∙ name_first-append works d (failed_names works front) (x.name ∷ [])
        ∙ ap (λ names. names ++ x.name ∷ []) (sym (failed_names-first works d front)))

-- A shutdown unwinds from the resource acquired last. Either every resource was released, where one
-- that is not critical is let go although it failed; or it stopped at a critical one that failed,
-- which is retained with all that was acquired before it. The failures are reported in order.
pub dispose_all-Unwound :
    (works : ℕ → Bool) (ds : List Disposable) → Unwound works ds (dispose_all works ds)
unfolding dispose_all
dispose_all-Unwound works [] = fully tt refl refl (unfold failed_names in refl)
dispose_all-Unwound works (d ∷ ds) = elim (Bool-cases (works d.name)) [
  | inl w ↦
      released-Unwound works d ds (dispose_all works ds) _ (ground arith) (rw w refl) (rw w refl)
        (rw w refl) (dispose_all-Unwound works ds)
  | inr w ↦ elim (Bool-cases d.critical) [
    | inl c ↦
        halted [] d ds refl tt (ground arith) (rw (w, c) refl) (rw (w, c) refl)
          (rw (w, c) (unfold failed_names in refl))
    | inr c ↦
        released-Unwound works d ds (dispose_all works ds) _ (ground arith) (rw (w, c) refl)
          (rw (w, c) refl) (rw (w, c) refl) (dispose_all-Unwound works ds)
  ]
]

recovery-closed :
    (names : List ℕ) (backlog : Bool)
    → run_shutdown_failure_recovery names backlog ≡ closed
    → (is_empty names ≡ true) × (backlog ≡ false)
unfolding run_shutdown_failure_recovery requires_shutdown_retention
recovery-closed names backlog h = ground arith

Unwound-closed :
    (works : ℕ → Bool) (ds : List Disposable) (r : Drained) (backlog : Bool)
    → Unwound works ds r
    → run_shutdown_failure_recovery r.critical_failed backlog ≡ closed
    → (r.left ≡ []) × (backlog ≡ false) × All (λ d. is_released works d ≡ true) ds
Unwound-closed works ds r backlog (fully a left crit failed) h =
    (left, (recovery-closed r.critical_failed backlog h).1, a)
Unwound-closed works ds r backlog (halted front d back e a n left crit failed) h =
    cc ((recovery-closed r.critical_failed backlog h).0, ap is_empty crit)

-- When a shutdown has failed, the stores are closed and the runtime lock is released only if no
-- resource is left: every critical one was disposed of, and no backlog is pending.
pub drain_closed :
    (works : ℕ → Bool) (s : Supervisor) (backlog : Bool)
    → run_shutdown_failure_recovery (drain works s).1.critical_failed backlog ≡ closed
    → ((drain works s).0.disposables ≡ [])
      × (backlog ≡ false)
      × All (λ d. is_released works d ≡ true) s.disposables
unfolding drain
drain_closed works s backlog h =
    Unwound-closed works s.disposables (dispose_all works s.disposables) backlog
      (dispose_all-Unwound works s.disposables) h
