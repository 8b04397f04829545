-- ===== src/Service/RestGate/Examples.antt =====
-- Runs of the REST gate at concrete inputs.
use glitch_topstep.Service.Priority.{critical_reconcile, order_flow, history_sync, take_best}
use glitch_topstep.Service.RestGate.{
  Waiter, Gate, create, acquire, rank_of, release, here, next, arrives, finishes,
}
use glitch_topstep.Service.RestGate.Capacity.{Inv, gate-Reach-Inv}
use glitch_topstep.Prelude.{pos, ◌≡◌, refl, some, [], ◌∷◌, arith}

abbrev history : Waiter
history = record { ticket = 1; priority = history_sync }

abbrev reconcile : Waiter
reconcile = record { ticket = 2; priority = critical_reconcile }

abbrev flow : Waiter
flow = record { ticket = 3; priority = order_flow }

abbrev idle_gate : Gate
idle_gate = record { max_concurrent = 1; in_flight = 0; waiters = [] }

abbrev full_gate : Gate
full_gate = record { max_concurrent = 1; in_flight = 1; waiters = history ∷ reconcile ∷ flow ∷ [] }

release-reconcile : (release full_gate).1 ≡ some reconcile
unfolding release take_best rank_of
release-reconcile = refl

gate-Reach-Inv_example : Inv (release (acquire (acquire idle_gate flow).0 history).0).0
unfolding create acquire
gate-Reach-Inv_example =
    gate-Reach-Inv (pos 1) {g = idle_gate} refl
      (next (next (next here (arrives flow)) (arrives history)) (finishes (omega arith)))
