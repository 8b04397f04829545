-- ===== src/Service/TaskScheduler/Dispatching.antt =====
-- What the invariants of the scheduler say, and what it is to dispatch one task.
use mathlib.Core.List.{Perm, perm_middle, append_assoc}
use mathlib.Core.List.Perm
use mathlib.Core.Path.{subst}
use glitch_topstep.Service.TaskScheduler.Selection.{IsSelected}
use glitch_topstep.Service.TaskScheduler.{Task, Scheduler, Reading, dispatch}
use glitch_topstep.Prelude.{
  length, length-append, All, ℕ, suc, ◌≤◌, ◌<◌, ◌≡◌, sym, ap, ◌∙◌, ◌≢◌, inl, inr, List, [], ◌∷◌,
  ◌++◌, arith,
}

-- Between two calls: the count is that of the pending tasks, it keeps to the cap, and a task waits
-- only while every slot is taken.
pub record Inv (s : Scheduler) : Type 0 where
  pub counted : s.running_count ≡ length s.running
  pub capped : s.running_count ≤ s.max_concurrent
  pub positive : 1 ≤ s.max_concurrent
  pub busy : s.queue ≢ [] → s.running_count ≡ s.max_concurrent

-- The same without the last clause: what holds before `pump`.
pub record Ready (s : Scheduler) : Type 0 where
  pub counted : s.running_count ≡ length s.running
  pub capped : s.running_count ≤ s.max_concurrent
  pub positive : 1 ≤ s.max_concurrent

abbrev pub tasks : Scheduler → List Task
tasks s = s.running ++ s.queue

-- No two tasks of the list have one id.
abbrev pub Distinct : List Task → Type 0
Distinct [] = Unit {0}
Distinct (t ∷ ts) = All (λ q. q.id ≢ t.id) ts × Distinct ts

pub All-drop :
    (i : ℕ) (front : List Task) (t : Task) (back : List Task)
    → All (λ q. q.id ≢ i) (front ++ t ∷ back)
    → All (λ q. q.id ≢ i) (front ++ back)
All-drop i [] t back a = a.1
All-drop i (x ∷ front) t back a = (a.0, All-drop i front t back a.1)

pub Distinct-drop :
    (front : List Task) (t : Task) (back : List Task)
    → Distinct (front ++ t ∷ back)
    → Distinct (front ++ back)
Distinct-drop [] t back d = d.1
Distinct-drop (x ∷ front) t back d =
    (All-drop x.id front t back d.0, Distinct-drop front t back d.1)

-- What a selection leaves alone, and where the task was.
pub record Taken (s : Scheduler) (t : Task) (s' : Scheduler) : Type 0 where
  pub running_kept : s'.running ≡ s.running
  pub count_kept : s'.running_count ≡ s.running_count
  pub cap_kept : s'.max_concurrent ≡ s.max_concurrent
  pub completed_kept : s'.completed ≡ s.completed
  pub failed_kept : s'.failed ≡ s.failed
  pub front : List Task
  pub back : List Task
  pub was : s.queue ≡ front ++ t ∷ back
  pub is_now : s'.queue ≡ front ++ back

pub IsSelected-Taken :
    (c : Reading) (s : Scheduler) (t : Task) (s' : Scheduler) → IsSelected c s t s' → Taken s t s'
IsSelected-Taken c s t s' (inl (rest, first, e)) = record {
  running_kept = cc;
  count_kept = cc;
  cap_kept = cc;
  completed_kept = cc;
  failed_kept = cc;
  front = first.0;
  back = first.1;
  was = first.2;
  is_now = ap (λ (r : Scheduler). r.queue) e ∙ first.3;
}
IsSelected-Taken c s t s' (inr (_, rest, best, e)) = record {
  running_kept = cc;
  count_kept = cc;
  cap_kept = cc;
  completed_kept = cc;
  failed_kept = cc;
  front = best.0;
  back = best.1;
  was = best.2;
  is_now = ap (λ (r : Scheduler). r.queue) e ∙ best.3;
}

pub dispatch-Ready :
    (s : Scheduler) (t : Task) (s' : Scheduler)
    → Taken s t s'
    → s.running_count < s.max_concurrent
    → Ready s
    → Ready (dispatch s' t)
unfolding dispatch
dispatch-Ready s t s' k h v = record {
  counted =
      omega (
        arith,
        length-append s'.running (t ∷ []),
        k.count_kept,
        ap length k.running_kept,
        v.counted,
      );
  capped = omega (arith, k.count_kept, k.cap_kept);
  positive = omega (arith, k.cap_kept, v.positive);
}

pub length-middle :
    (front : List Task) (t : Task) (back : List Task)
    → length (front ++ t ∷ back) ≡ suc (length (front ++ back))
length-middle front t back = omega (arith, length-append front (t ∷ back), length-append front back)

pub dispatch-length :
    (s : Scheduler) (t : Task) (s' : Scheduler)
    → Taken s t s'
    → length s.queue ≡ suc (length (dispatch s' t).queue)
unfolding dispatch
dispatch-length s t s' k = rw (k.was, k.is_now) (length-middle k.front t k.back)

pub dispatch-Perm :
    (s : Scheduler) (t : Task) (s' : Scheduler)
    → Taken s t s'
    → Perm (tasks (dispatch s' t)) (tasks s)
unfolding dispatch
dispatch-Perm s t s' k =
    rw (k.was, k.is_now, k.running_kept, append_assoc s.running (t ∷ []) (k.front ++ k.back))
      (Perm.append_left s.running (Perm.symm (perm_middle k.front k.back)))

pub dispatch-Distinct :
    (s : Scheduler) (t : Task) (s' : Scheduler)
    → Taken s t s'
    → Distinct s.queue
    → Distinct (dispatch s' t).queue
unfolding dispatch
dispatch-Distinct s t s' k d =
    subst Distinct (sym k.is_now) (Distinct-drop k.front t k.back (subst Distinct k.was d))
