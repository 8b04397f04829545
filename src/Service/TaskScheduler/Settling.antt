-- ===== src/Service/TaskScheduler/Settling.antt =====
-- The end of a task's work, and every state that a scheduler can reach.
use glitch_topstep.Service.TaskScheduler.Dispatching.{Inv, Ready, length-middle, tasks}
use glitch_topstep.Service.TaskScheduler.Concurrency.{pump-Pumped, Pumped-Inv, enqueue-Inv}
use mathlib.Core.List.{Perm, perm_middle, append_assoc}
use mathlib.Core.List.Perm
use mathlib.Core.Path.{subst}
use glitch_topstep.Service.TaskScheduler.{Task, Scheduler, Reading, create, pump, enqueue, settle}
use glitch_topstep.Service.Priority.{take_at}
use glitch_topstep.Prelude.{
  if◌then◌else◌, length, some_inj, ℤ, ℕ, zero, suc, ◌+◌, ◌-◌, ◌<◌, ◌≡◌, refl, sym, ap, ◌∙◌, Bool,
  some, List, [], ◌∷◌, ◌++◌, arith,
}

-- What `settle` hands to `pump`.
abbrev settled : Scheduler → List Task → Bool → Scheduler
settled s rest ok = record s {
  running = rest;
  running_count = s.running_count - 1;
  completed = if ok then s.completed + 1 else s.completed;
  failed = if ok then s.failed else s.failed + 1;
}

IsTaken : ℕ → List Task → Task → List Task → Type 0
IsTaken k xs t rest =
    (front : List Task) × (back : List Task) × (xs ≡ front ++ t ∷ back)
    × (rest ≡ front ++ back)
    × (length front ≡ k)

take_at-IsTaken :
    (k : ℕ) (xs : List Task)
    → k < length xs
    → (t : Task) × (rest : List Task) × (take_at k xs ≡ some (t, rest)) × IsTaken k xs t rest
unfolding take_at IsTaken
take_at-IsTaken k [] h = elim h [ ]
take_at-IsTaken zero (x ∷ xs) h = (x, xs, refl, ([], xs, refl, refl, refl))
take_at-IsTaken (suc k) (x ∷ xs) h =
    let (t, rest, e, w) = take_at-IsTaken k xs (omega arith) in
    (t, x ∷ rest, rw e refl, (x ∷ w.0, w.1, ap (◌∷◌ x) w.2, ap (◌∷◌ x) w.3, ap suc w.4))

settle_take :
    (c : ℕ → Reading) (k : ℕ) (ok : Bool) (s : Scheduler) (t : Task) (rest : List Task)
    → take_at k s.running ≡ some (t, rest)
    → settle c k ok s ≡ some (t.callers, pump c (settled s rest ok))
unfolding settle
settle_take c k ok s t rest e = rw (e, settle) refl

settled-Ready :
    (s : Scheduler) (ok : Bool) (k : ℕ) (t : Task) (rest : List Task)
    → Inv s
    → IsTaken k s.running t rest
    → Ready (settled s rest ok)
unfolding IsTaken
settled-Ready s ok k t rest v w = record {
  counted = omega (arith, v.counted, ap length w.2, ap length w.3, length-middle w.0 t w.1);
  capped = omega (arith, v.capped);
  positive = v.positive;
}

settled-Perm :
    (s : Scheduler) (k : ℕ) (t : Task) (rest : List Task)
    → IsTaken k s.running t rest
    → Perm (t ∷ (rest ++ s.queue)) (s.running ++ s.queue)
unfolding IsTaken
settled-Perm s k t rest w =
    rw (w.2, w.3, append_assoc w.0 (t ∷ w.1) s.queue, append_assoc w.0 w.1 s.queue)
      (Perm.symm (perm_middle w.0 (w.1 ++ s.queue)))

settled_count :
    (s : Scheduler) (rest : List Task) (ok : Bool)
    → (settled s rest ok).completed + (settled s rest ok).failed ≡ s.completed + s.failed + 1
settled_count s rest ok = ground arith

-- The work of any running task can end. Its callers, and no others, are settled; the task leaves,
-- no other is lost, the end is counted once, and the invariant holds after the pump.
pub settle_running :
    (c : ℕ → Reading) (k : ℕ) (ok : Bool) (s : Scheduler)
    → Inv s
    → k < length s.running
    → (t : Task) × (s' : Scheduler) × (settle c k ok s ≡ some (t.callers, s'))
      × Perm (t ∷ tasks s') (tasks s)
      × (s'.completed + s'.failed ≡ s.completed + s.failed + 1)
      × Inv s'
settle_running c k ok s v h =
    let (t, rest, e, w) = take_at-IsTaken k s.running h in
    let p = pump-Pumped c (settled s rest ok) (settled-Ready s ok k t rest v w) in
    (
      t,
      pump c (settled s rest ok),
      settle_take c k ok s t rest e,
      Perm.trans (Perm.cons t p.same_tasks) (settled-Perm s k t rest w),
      omega (arith, p.completed_kept, p.failed_kept, settled_count s rest ok),
      Pumped-Inv _ _ p,
    )

-- What happens to a scheduler: a request, or the end of the work of a running task.
pub data Step (s : Scheduler) : Scheduler → Type 0 where
  requests : (c : ℕ → Reading) (now : ℕ) (t : Task) (caller : ℕ) → Step s (enqueue c now t caller s)
  ends :
      (c : ℕ → Reading) (k : ℕ) (ok : Bool) {callers : List ℕ} {s' : Scheduler}
      → k < length s.running
      → settle c k ok s ≡ some (callers, s')
      → Step s s'

pub data Reach (s : Scheduler) : Scheduler → Type 0 where
  here : Reach s s
  next : {u w : Scheduler} → Reach s u → Step u w → Reach s w

Step-Inv : {s u : Scheduler} → Step s u → Inv s → Inv u
Step-Inv {s} (requests c now t caller) v = enqueue-Inv c now t caller s v
Step-Inv {s} {u} (ends c k ok h e) v =
    let (t, s', found, _, _, kept) = settle_running c k ok s v h in
    subst (λ (r : List ℕ × Scheduler). Inv r.1) (some_inj (sym found ∙ e)) kept

create-Inv : (cap : ℤ) → Inv (create cap)
unfolding create
create-Inv cap = record {
  counted = refl;
  capped = omega arith;
  positive = omega arith;
  busy = λ ne. absurd (ne refl);
}

-- However requests and ends of work interleave after the constructor, the counter is the number of
-- tasks that run, never more than the cap, and a task waits only while every slot is taken.
pub scheduler-Reach-Inv : (cap : ℤ) {s : Scheduler} → Reach (create cap) s → Inv s
scheduler-Reach-Inv cap here = create-Inv cap
scheduler-Reach-Inv cap (next r st) = Step-Inv st (scheduler-Reach-Inv cap r)
