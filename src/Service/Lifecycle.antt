-- ===== src/Service/Lifecycle.antt =====
-- LifecycleSupervisor of src/service/lifecycle-supervisor.ts, and the recovery after a shutdown that
-- failed. The resources stand with the one acquired last in front. Whether a disposer works is a
-- parameter. Times and details are left out, which nothing reads.
mod Unwinding
mod Examples
use glitch_topstep.Prelude.{ℕ, Bool, true, false, not, ◌||◌, if◌then◌else◌, is_empty, List, [], ◌∷◌}

pub data LifecycleState : Type 0 where
  starting ready draining stopped failed_startup failed_shutdown : LifecycleState

pub record Disposable : Type 0 where
  pub name : ℕ
  pub critical : Bool

pub record Supervisor : Type 0 where
  pub state : LifecycleState
  pub disposables : List Disposable

pub record Drained : Type 0 where
  pub left : List Disposable
  pub failed : List ℕ
  pub critical_failed : List ℕ

pub fresh : Supervisor
fresh = record { state = stopped; disposables = [] }

pub transition : LifecycleState → Supervisor → Supervisor
transition state s = record s { state = state }

pub register : Disposable → Supervisor → Supervisor
register d s = record s { disposables = d ∷ s.disposables }

-- The loop of disposeAll: a critical failure stops it with the resource retained.
pub dispose_all : (ℕ → Bool) → List Disposable → Drained
dispose_all works [] = record { left = []; failed = []; critical_failed = [] }
dispose_all works (d ∷ ds) =
    let rest = dispose_all works ds in
    if works d.name
    then rest
    else if d.critical
    then record { left = d ∷ ds; failed = d.name ∷ []; critical_failed = d.name ∷ [] }
    else record rest { failed = d.name ∷ rest.failed }

pub rollback_after_failure : (ℕ → Bool) → Supervisor → Supervisor
unfolding dispose_all
rollback_after_failure works s = record {
  state = failed_startup;
  disposables = (dispose_all works s.disposables).left;
}

pub drain : (ℕ → Bool) → Supervisor → Supervisor × Drained
unfolding transition dispose_all
drain works s = (
  record { state = draining; disposables = (dispose_all works s.disposables).left },
  dispose_all works s.disposables,
)

pub requires_shutdown_retention : List ℕ → Bool → Bool
requires_shutdown_retention critical_failed backlog_pending =
    not (is_empty critical_failed) || backlog_pending

pub data Recovery : Type 0 where
  -- The stores are closed and the runtime lock is released.
  closed : Recovery
  -- Only the network handles are let go.
  retained : Recovery

pub run_shutdown_failure_recovery : List ℕ → Bool → Recovery
unfolding requires_shutdown_retention
run_shutdown_failure_recovery critical_failed backlog_pending =
    if requires_shutdown_retention critical_failed backlog_pending then retained else closed
