-- ===== src/Service/Lifecycle/Examples.antt =====
-- Three resources, one of them critical.
use glitch_topstep.Service.Lifecycle.{
  Disposable, Supervisor, stopped, dispose_all, drain, requires_shutdown_retention,
  run_shutdown_failure_recovery,
}
use glitch_topstep.Service.Lifecycle.Unwinding.{is_released, drain_closed}
use glitch_topstep.Prelude.{ℕ, ◌≡◌, refl, Bool, true, false, not, ◌==◌, List, [], ◌∷◌, All}

abbrev timer : Disposable
timer = record { name = 1; critical = false }

abbrev realtime : Disposable
realtime = record { name = 2; critical = true }

abbrev server : Disposable
server = record { name = 3; critical = false }

abbrev stack : List Disposable
stack = server ∷ realtime ∷ timer ∷ []

abbrev all_but : ℕ → ℕ → Bool
all_but i j = not (j == i)

realtime_fails :
    dispose_all (all_but 2) stack
    ≡ record { left = realtime ∷ timer ∷ []; failed = 2 ∷ []; critical_failed = 2 ∷ [] }
unfolding dispose_all
realtime_fails = refl

abbrev running : Supervisor
running = record { state = stopped; disposables = stack }

drain_closed_example :
    ((drain (all_but 3) running).0.disposables ≡ [])
    × (false ≡ false)
    × All (λ d. is_released (all_but 3) d ≡ true) running.disposables
unfolding drain dispose_all run_shutdown_failure_recovery requires_shutdown_retention
drain_closed_example = drain_closed (all_but 3) running false refl
