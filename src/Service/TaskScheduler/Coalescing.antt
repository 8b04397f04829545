-- ===== src/Service/TaskScheduler/Coalescing.antt =====
-- Requests for an id that is queued, or that runs.
use glitch_topstep.Service.TaskScheduler.Dispatching.{Inv, Distinct, IsSelected-Taken}
use glitch_topstep.Service.TaskScheduler.Concurrency.{
  appended, appended-Pumped, queued, is_queued, enqueue_old, enqueue_new, pump_rounds_step,
}
use glitch_topstep.Service.TaskScheduler.Selection.{select_next-IsSelected}
use glitch_topstep.Service.TaskScheduler.{
  Task, Scheduler, Reading, select_next, dispatch, pump_rounds, pump, join, enqueue,
}
use glitch_topstep.Service.Priority.{TaskPriority, rank}
use glitch_topstep.Prelude.{
  ltb, ◌==◌, if◌then◌else◌, Bool-cases, length, is_empty, length-append, some_of, some_inj, keep,
  find, All, ℕ, suc, ◌<◌, min, ◌≡◌, refl, sym, ap, ◌∙◌, ◌≢◌, inl, inr, Bool, true, false, some,
  List, [], ◌∷◌, ◌++◌, arith,
}

not_queued : (i : ℕ) (q : List Task) → some_of (λ t. t.id == i) q ≡ false → All (λ t. t.id ≢ i) q
not_queued i [] e = tt
not_queued i (t ∷ q) e = (ground arith, not_queued i q (ground arith))

All-snoc :
    (i : ℕ) (q : List Task) (t : Task)
    → All (λ u. u.id ≢ i) q
    → t.id ≢ i
    → All (λ u. u.id ≢ i) (q ++ t ∷ [])
All-snoc i [] t a h = (h, tt)
All-snoc i (u ∷ q) t a h = (a.0, All-snoc i q t a.1 h)

Distinct-snoc :
    (q : List Task) (t : Task) → Distinct q → All (λ u. u.id ≢ t.id) q → Distinct (q ++ t ∷ [])
Distinct-snoc [] t d a = (tt, tt)
Distinct-snoc (u ∷ q) t d a = (All-snoc u.id q t d.0 (λ e. a.0 (sym e)), Distinct-snoc q t d.1 a.1)

join-All :
    (j i : ℕ) (p : TaskPriority) (caller : ℕ) (q : List Task)
    → All (λ u. u.id ≢ j) q
    → All (λ u. u.id ≢ j) (join i p caller q)
unfolding join
join-All j i p caller [] a = tt
join-All j i p caller (t ∷ q) a = ground (arith, join-All j i p caller q a.1)

join-Distinct :
    (i : ℕ) (p : TaskPriority) (caller : ℕ) (q : List Task)
    → Distinct q
    → Distinct (join i p caller q)
unfolding join
join-Distinct i p caller [] d = tt
join-Distinct i p caller (t ∷ q) d =
    ground (arith, join-Distinct i p caller q d.1, join-All t.id i p caller q d.0)

-- No two queued tasks ever have one id: a request for a queued id joins the task that is there.
pub enqueue-Distinct :
    (c : ℕ → Reading) (now : ℕ) (t : Task) (caller : ℕ) (s : Scheduler)
    → Inv s
    → Distinct s.queue
    → Distinct (enqueue c now t caller s).queue
enqueue-Distinct c now t caller s v d = elim (Bool-cases (is_queued t.id s)) [
  | inl e ↦ rw (enqueue_old c now t caller s e) (join-Distinct t.id t.priority caller s.queue d)
  | inr e ↦ rw (enqueue_new c now t caller s e) (
      (appended-Pumped c now t caller s v).distinct_kept
        (Distinct-snoc s.queue (queued t now caller) d (not_queued t.id s.queue e)))
]

abbrev joined : TaskPriority → ℕ → Task → Task
joined p caller t = record t {
  priority = if ltb (rank p) (rank t.priority) then p else t.priority;
  callers = t.callers ++ caller ∷ [];
}

find-join :
    (i : ℕ) (p : TaskPriority) (caller : ℕ) (q : List Task) (t : Task)
    → find (λ u. u.id == i) q ≡ some t
    → find (λ u. u.id == i) (join i p caller q) ≡ some (joined p caller t)
unfolding join
find-join i p caller [] t e = cc
find-join i p caller (u ∷ q) t e = elim (Bool-cases (u.id == i)) [
  | inl same ↦
      let eq : u ≡ t = some_inj (rw same at e) in
      rw (same, same) (ap (λ (r : Task). some (joined p caller r)) eq)
  | inr other ↦ rw (other, other) (find-join i p caller q t (rw other at e))
]

length-join :
    (i : ℕ) (p : TaskPriority) (caller : ℕ) (q : List Task) → length (join i p caller q) ≡ length q
unfolding join
length-join i p caller [] = refl
length-join i p caller (u ∷ q) = ground (arith, length-join i p caller q)

rank-joined :
    (p : TaskPriority) (caller : ℕ) (t : Task)
    → rank (joined p caller t).priority ≡ min (rank p) (rank t.priority)
rank-joined p caller t = ground arith

-- A request for a queued id adds no task. The queued task of that id settles its caller too, and
-- takes the better of the two priorities.
pub enqueue_joins :
    (c : ℕ → Reading) (now : ℕ) (t u : Task) (caller : ℕ) (s : Scheduler)
    → find (λ q. q.id == t.id) s.queue ≡ some u
    → (u' : Task) × (find (λ q. q.id == t.id) (enqueue c now t caller s).queue ≡ some u')
      × (u'.callers ≡ u.callers ++ caller ∷ [])
      × (rank u'.priority ≡ min (rank t.priority) (rank u.priority))
      × (length (enqueue c now t caller s).queue ≡ length s.queue)
      × ((enqueue c now t caller s).running ≡ s.running)
enqueue_joins c now t u caller s e =
    rw (enqueue_old c now t caller s (find_queued t.id s.queue u e)) (
      joined t.priority caller u,
      find-join t.id t.priority caller s.queue u e,
      refl,
      rank-joined t.priority caller u,
      length-join t.id t.priority caller s.queue,
      refl,
    )
  where
    find_queued :
        (i : ℕ) (q : List Task) (u : Task)
        → find (λ t. t.id == i) q ≡ some u
        → some_of (λ t. t.id == i) q ≡ true
    find_queued i [] u e = cc
    find_queued i (x ∷ q) u e = ground (arith, find_queued i q u)

one_task : (q u : Task) (front back : List Task) → q ∷ [] ≡ front ++ u ∷ back → u ≡ q
one_task q u [] back e = cc
one_task q u (x ∷ front) back e =
    absurd (omega (arith, ap length e, length-append front (u ∷ back)))

empty_queue :
    (s : Scheduler) (q : List Task)
    → s.queue ≡ q
    → Inv s
    → s.running_count < s.max_concurrent
    → s.queue ≡ []
empty_queue s [] e v h = e
empty_queue s (x ∷ q) e v h = absurd (omega (arith, v.busy (λ n. cc)))

pump_one :
    (c : ℕ → Reading) (s : Scheduler) (q : Task)
    → s.queue ≡ q ∷ []
    → s.running_count < s.max_concurrent
    → (pump c s).running ≡ s.running ++ q ∷ []
pump_one c s q e h =
    let (t, s', found, selected) = select_next-IsSelected (c 0) s q [] e in
    let k = IsSelected-Taken (c 0) s t s' selected in
    rw (pump_is c s q t s' e h found)
      (unfold dispatch in rw (k.running_kept, one_task q t k.front k.back (sym e ∙ k.was)) refl)
  where
    pump_is :
        (c : ℕ → Reading) (s : Scheduler) (q t : Task) (s' : Scheduler)
        → s.queue ≡ q ∷ []
        → s.running_count < s.max_concurrent
        → select_next (c 0) s ≡ some (t, s')
        → pump c s ≡ dispatch s' t
    pump_is c s q t s' e h found =
        unfold pump in
        rw (ap length e)
          (pump_rounds_step 0 c s t s' h (ap is_empty e) found ∙ unfold pump_rounds in refl)

keep-append : (p : Task → Bool) (xs ys : List Task) → keep p (xs ++ ys) ≡ keep p xs ++ keep p ys
keep-append p [] ys = refl
keep-append p (x ∷ xs) ys = ground (arith, keep-append p xs ys)

-- While a slot is free, a request for an id starts at once, also when a task of that id runs: then
-- the two run side by side.
pub enqueue_beside :
    (c : ℕ → Reading) (now : ℕ) (t : Task) (caller : ℕ) (s : Scheduler)
    → Inv s
    → s.running_count < s.max_concurrent
    → let same = λ (q : Task). q.id == t.id in
      length (keep same (enqueue c now t caller s).running) ≡ suc (length (keep same s.running))
enqueue_beside c now t caller s v h =
    let q : Task = queued t now caller in
    let e = empty_queue s s.queue refl v h in
    let started =
      ap (λ (r : Scheduler). r.running)
        (enqueue_new c now t caller s (ap (some_of (λ (u : Task). u.id == t.id)) e))
      ∙ pump_one c (appended t now caller s) q (ap (λ (us : List Task). us ++ q ∷ []) e) h in
    rw (started, keep-append (λ u. u.id == t.id) s.running (q ∷ []))
      (ground (arith, length-append (keep (λ u. u.id == t.id) s.running) (q ∷ [])))
