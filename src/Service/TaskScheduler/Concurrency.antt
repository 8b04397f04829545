-- ===== src/Service/TaskScheduler/Concurrency.antt =====
-- The scheduler's cap, its work conservation, and that no task is lost.
use glitch_topstep.Service.TaskScheduler.Dispatching.{
  Inv, Ready, tasks, Distinct, IsSelected-Taken, dispatch-Ready, dispatch-length, dispatch-Perm,
  dispatch-Distinct,
}
use mathlib.Core.List.{Perm, perm_middle, append_assoc, append-nil}
use mathlib.Core.List.Perm
use native.Mathlib.Decide.{dec_lt}
use glitch_topstep.Service.TaskScheduler.Selection.{select_next-IsSelected}
use glitch_topstep.Service.TaskScheduler.{
  Task, Scheduler, Reading, select_next, dispatch, pump_rounds, pump, join, enqueue,
}
use glitch_topstep.Service.Priority.{TaskPriority}
use glitch_topstep.Prelude.{
  ltb, ◌==◌, Bool-cases, length, is_empty, some_of, ℕ, zero, suc, ◌≤◌, ◌<◌, ◌≡◌, refl, ap, ◌∙◌, ◌≢◌,
  inl, inr, Bool, true, false, not, ◌&&◌, some, List, [], ◌∷◌, ◌++◌, arith,
}

pub record Pumped (s s' : Scheduler) : Type 0 where
  pub ready : Ready s'
  pub idle : s'.queue ≢ [] → s'.running_count ≡ s'.max_concurrent
  pub same_tasks : Perm (tasks s') (tasks s)
  pub completed_kept : s'.completed ≡ s.completed
  pub failed_kept : s'.failed ≡ s.failed
  pub cap_kept : s'.max_concurrent ≡ s.max_concurrent
  pub distinct_kept : Distinct s.queue → Distinct s'.queue

full-Pumped :
    (s : Scheduler) → Ready s → (s.queue ≢ [] → s.max_concurrent ≤ s.running_count) → Pumped s s
full-Pumped s v h = record {
  ready = v;
  idle = λ ne. omega (arith, h ne, v.capped);
  same_tasks = Perm.refl _;
  completed_kept = refl;
  failed_kept = refl;
  cap_kept = refl;
  distinct_kept = λ d. d;
}

pump_rounds_stop :
    (k : ℕ) (c : ℕ → Reading) (s : Scheduler)
    → (s.queue ≢ [] → s.max_concurrent ≤ s.running_count)
    → pump_rounds (suc k) c s ≡ s
unfolding pump_rounds
pump_rounds_stop k c s h =
    elim (Bool-cases (ltb s.running_count s.max_concurrent && not (is_empty s.queue))) [
      | inl e ↦ absurd (full s.queue refl h e)
      | inr e ↦ rw e refl
    ]
  where
    full :
        (q : List Task)
        → s.queue ≡ q
        → (s.queue ≢ [] → s.max_concurrent ≤ s.running_count)
        → (ltb s.running_count s.max_concurrent && not (is_empty s.queue)) ≡ true
        → ⊥
    full [] e h b = ground arith
    full (x ∷ xs) e h b = ground (arith, h (λ n. cc))

pub pump_rounds_step :
    (k : ℕ) (c : ℕ → Reading) (s : Scheduler) (t : Task) (s' : Scheduler)
    → s.running_count < s.max_concurrent
    → is_empty s.queue ≡ false
    → select_next (c k) s ≡ some (t, s')
    → pump_rounds (suc k) c s ≡ pump_rounds k c (dispatch s' t)
unfolding pump_rounds
pump_rounds_step k c s t s' h ne e = ground arith

Pumped-trans :
    (s u w : Scheduler)
    → Perm (tasks u) (tasks s)
    → u.completed ≡ s.completed
    → u.failed ≡ s.failed
    → u.max_concurrent ≡ s.max_concurrent
    → (Distinct s.queue → Distinct u.queue)
    → Pumped u w
    → Pumped s w
Pumped-trans s u w p a b c d q = record {
  ready = q.ready;
  idle = q.idle;
  same_tasks = Perm.trans q.same_tasks p;
  completed_kept = q.completed_kept ∙ a;
  failed_kept = q.failed_kept ∙ b;
  cap_kept = q.cap_kept ∙ c;
  distinct_kept = λ h. q.distinct_kept (d h);
}

pump_rounds-Pumped :
    (k : ℕ) (c : ℕ → Reading) (s : Scheduler) (q : List Task)
    → s.queue ≡ q
    → length s.queue ≤ k
    → Ready s
    → Pumped s (pump_rounds k c s)
pump_rounds-Pumped zero c s [] e h v = unfold pump_rounds in full-Pumped s v (λ ne. absurd (ne e))
pump_rounds-Pumped zero c s (x ∷ xs) e h v = absurd (omega (arith, ap length e))
pump_rounds-Pumped (suc k) c s [] e h v =
    rw (pump_rounds_stop k c s (λ ne. absurd (ne e))) (full-Pumped s v (λ ne. absurd (ne e)))
pump_rounds-Pumped (suc k) c s (x ∷ xs) e h v = elim (dec_lt s.running_count s.max_concurrent) [
  | no full ↦ rw (pump_rounds_stop k c s (λ _. omega arith)) (full-Pumped s v (λ _. omega arith))
  | yes free ↦
      let (t, s', found, selected) = select_next-IsSelected (c k) s x xs e in
      let taken = IsSelected-Taken (c k) s t s' selected in
      rw (pump_rounds_step k c s t s' free (ap is_empty e) found) (
        Pumped-trans s (dispatch s' t) _ (dispatch-Perm s t s' taken)
          (unfold dispatch in taken.completed_kept) (unfold dispatch in taken.failed_kept)
          (unfold dispatch in taken.cap_kept) (dispatch-Distinct s t s' taken)
          (pump_rounds-Pumped k c (dispatch s' t) (dispatch s' t).queue refl
            (omega (arith, dispatch-length s t s' taken)) (dispatch-Ready s t s' taken free v)))
]

pub pump-Pumped : (c : ℕ → Reading) (s : Scheduler) → Ready s → Pumped s (pump c s)
unfolding pump
pump-Pumped c s v = pump_rounds-Pumped (length s.queue) c s s.queue refl (omega arith) v

pub Pumped-Inv : (s s' : Scheduler) → Pumped s s' → Inv s'
Pumped-Inv s s' p = record {
  counted = p.ready.counted;
  capped = p.ready.capped;
  positive = p.ready.positive;
  busy = p.idle;
}

-- The request with its time and its first caller, as it is queued.
abbrev pub queued : Task → ℕ → ℕ → Task
queued t now caller = record t { enqueued_at = now; callers = caller ∷ [] }

abbrev pub is_queued : ℕ → Scheduler → Bool
is_queued i s = some_of (λ q. q.id == i) s.queue

abbrev pub appended : Task → ℕ → ℕ → Scheduler → Scheduler
appended t now caller s = record s { queue = s.queue ++ queued t now caller ∷ [] }

pub enqueue_new :
    (c : ℕ → Reading) (now : ℕ) (t : Task) (caller : ℕ) (s : Scheduler)
    → is_queued t.id s ≡ false
    → enqueue c now t caller s ≡ pump c (appended t now caller s)
unfolding enqueue
enqueue_new c now t caller s e = rw (e, enqueue) refl

pub enqueue_old :
    (c : ℕ → Reading) (now : ℕ) (t : Task) (caller : ℕ) (s : Scheduler)
    → is_queued t.id s ≡ true
    → enqueue c now t caller s ≡ record s { queue = join t.id t.priority caller s.queue }
unfolding enqueue
enqueue_old c now t caller s e = rw (e, enqueue) refl

pub appended-Pumped :
    (c : ℕ → Reading) (now : ℕ) (t : Task) (caller : ℕ) (s : Scheduler)
    → Inv s
    → Pumped (appended t now caller s) (pump c (appended t now caller s))
appended-Pumped c now t caller s v =
    pump-Pumped c (appended t now caller s)
      (record { counted = v.counted; capped = v.capped; positive = v.positive })

join-ne : (i : ℕ) (p : TaskPriority) (caller : ℕ) (q : List Task) → q ≡ [] → join i p caller q ≡ []
unfolding join
join-ne i p caller q e = rw e refl

pub enqueue-Inv :
    (c : ℕ → Reading) (now : ℕ) (t : Task) (caller : ℕ) (s : Scheduler)
    → Inv s
    → Inv (enqueue c now t caller s)
enqueue-Inv c now t caller s v = elim (Bool-cases (is_queued t.id s)) [
  | inl e ↦ rw (enqueue_old c now t caller s e) (record {
    counted = v.counted;
    capped = v.capped;
    positive = v.positive;
    busy = λ ne. v.busy (λ n. ne (join-ne t.id t.priority caller s.queue n));
  })
  | inr e ↦
      rw (enqueue_new c now t caller s e) (Pumped-Inv _ _ (appended-Pumped c now t caller s v))
]

-- A request for an id that is not queued adds its task to those queued and running, and loses none.
pub enqueue-Perm :
    (c : ℕ → Reading) (now : ℕ) (t : Task) (caller : ℕ) (s : Scheduler)
    → Inv s
    → is_queued t.id s ≡ false
    → Perm (tasks (enqueue c now t caller s)) (queued t now caller ∷ tasks s)
enqueue-Perm c now t caller s v e = rw (enqueue_new c now t caller s e) (
    Perm.trans (appended-Pumped c now t caller s v).same_tasks (
      rw (← append_assoc s.running s.queue (queued t now caller ∷ []))
        (rw append-nil at (perm_middle {a = queued t now caller} (tasks s) []))))
