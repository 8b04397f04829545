-- ===== src/Service/TaskScheduler/Examples.antt =====
-- Runs of the scheduler at concrete inputs.
use glitch_topstep.Service.TaskScheduler.Dispatching.{Inv}
use glitch_topstep.Service.TaskScheduler.Settling.{here, next, requests, scheduler-Reach-Inv}
use glitch_topstep.Service.TaskScheduler.Selection.{IsSelected, select_next-IsSelected}
use glitch_topstep.Service.TaskScheduler.Coalescing.{enqueue_beside}
use glitch_topstep.Service.TaskScheduler.{
  Task, Scheduler, Reading, create, is_history, is_overdue, take_first, rank_of, select_best,
  select_next, enqueue,
}
use glitch_topstep.Service.Priority.{critical_reconcile, order_flow, history_sync, take_best}
use glitch_topstep.Prelude.{
  ◌==◌, length, keep, pos, ℕ, ◌≡◌, refl, true, false, some, [], ◌∷◌, arith,
}

abbrev clock : ℕ → Reading
clock k = record { now = 1000; storm = false }

abbrev stormy : Reading
stormy = record { now = 90000; storm = true }

abbrev reconcile : Task
reconcile = record {
  id = 1;
  priority = critical_reconcile;
  enqueued_at = 0;
  deadline = 30000;
  callers = 7 ∷ [];
}

abbrev history : Task
history = record {
  id = 2;
  priority = history_sync;
  enqueued_at = 0;
  deadline = 30000;
  callers = 8 ∷ [];
}

abbrev flow : Task
flow = record { id = 3; priority = order_flow; enqueued_at = 0; deadline = 30000; callers = 9 ∷ [] }

-- One slot of two is taken.
abbrev half_busy : Scheduler
half_busy = record {
  max_concurrent = 2;
  queue = [];
  running = reconcile ∷ [];
  running_count = 1;
  completed = 4;
  failed = 1;
  deferred = 0;
}

-- The one slot is taken, and two tasks wait.
abbrev full : Scheduler
full = record {
  max_concurrent = 1;
  queue = history ∷ flow ∷ [];
  running = reconcile ∷ [];
  running_count = 1;
  completed = 0;
  failed = 0;
  deferred = 0;
}

abbrev only_history : Scheduler
only_history = record full { queue = history ∷ [] }

half_busy-Inv : Inv half_busy
half_busy-Inv = record {
  counted = refl;
  capped = omega arith;
  positive = omega arith;
  busy = λ ne. absurd (ne refl);
}

full-Inv : Inv full
full-Inv = record {
  counted = refl;
  capped = omega arith;
  positive = omega arith;
  busy = λ ne. refl;
}

full_selects :
    (t : Task) × (s' : Scheduler) × (select_next (clock 0) full ≡ some (t, s')) × (t.id ≡ 3)
unfolding select_next select_best take_first take_best is_overdue rank_of is_history
full_selects = (flow, record full { queue = history ∷ [] }, refl, refl)

scheduler-Reach-Inv_example :
    Inv (enqueue clock 1000 history 8 (enqueue clock 1000 reconcile 7 (create (pos 2))))
scheduler-Reach-Inv_example =
    scheduler-Reach-Inv (pos 2)
      (next (next here (requests clock 1000 reconcile 7)) (requests clock 1000 history 8))

select_next-IsSelected_example :
    (t : Task) × (s' : Scheduler) × (select_next (clock 0) full ≡ some (t, s'))
    × IsSelected (clock 0) full t s'
select_next-IsSelected_example = select_next-IsSelected (clock 0) full history (flow ∷ []) refl

enqueue_beside_example :
    length (keep (λ q. q.id == 1) (enqueue clock 1000 reconcile 11 half_busy).running) ≡ 2
enqueue_beside_example =
    enqueue_beside clock 1000 reconcile 11 half_busy half_busy-Inv (omega arith)
