-- ===== src/Service/TaskScheduler.antt =====
-- TaskScheduler of src/service/task-scheduler.ts. A task carries the callers whose promises its
-- `resolve` and `reject` chains settle; `running` keeps the dispatched tasks whose work is pending,
-- which the source holds in promise chains. `Date.now` and `isStormActive` are read once for each
-- selection: the reading taken with k rounds of `pump` left is the k-th of a stream.
use glitch_topstep.Service.Priority.{TaskPriority, history_sync, rank, take_at, take_best}
mod Selection
mod Dispatching
mod Concurrency
mod Settling
mod Coalescing
mod Examples
use glitch_topstep.Prelude.{
  ltb, leb, ◌==◌, if◌then◌else◌, ltb→lt, leb→le, ==_iff, Bool-cases, Option-cases, is_some, is_none,
  or_else, length, is_empty, length-append, some_of, every, keep, find, length-keep-le, All, ℤ, pos,
  negsuc, pos_part, neg_part, sub_ℕ, ◌+ℤ◌, ◌-ℤ◌, ◌*ℤ◌, ◌≤ℤ◌, ◌<ℤ◌, ltb_ℤ, leb_ℤ, eqb_ℤ, max_ℤ,
  min_ℤ, +ℤ_parts, -ℤ_parts, eq_of_parts, int_laws, Number, nan, neg_infinity, pos_infinity, finite,
  is_finite, num_lt, num_eq, num_le, is_positive, ℕ, zero, suc, ◌+◌, ◌-◌, ◌*◌, ◌≤◌, ◌<◌, min, max,
  ◌≡◌, refl, sym, ap, ◌∙◌, ◌≢◌, ◌↔◌, ◌⊎◌, inl, inr, Bool, true, false, not, ◌&&◌, ◌||◌, Option,
  none, some, List, [], ◌∷◌, ◌++◌, map, arith, ℕ_discrete,
}

pub record Task : Type 0 where
  pub id : ℕ
  pub priority : TaskPriority
  pub enqueued_at : ℕ
  pub deadline : ℕ
  pub callers : List ℕ

pub record Scheduler : Type 0 where
  pub max_concurrent : ℕ
  pub queue : List Task
  pub running : List Task
  pub running_count : ℕ
  pub completed : ℕ
  pub failed : ℕ
  pub deferred : ℕ

pub record Reading : Type 0 where
  pub now : ℕ
  pub storm : Bool

-- The constructor: `Math.max(1, maxConcurrent)`.
pub create : ℤ → Scheduler
create cap = record {
  max_concurrent = max 1 (pos_part cap);
  queue = [];
  running = [];
  running_count = 0;
  completed = 0;
  failed = 0;
  deferred = 0;
}

pub is_history : TaskPriority → Bool
is_history history_sync = true
is_history _ = false

-- The starvation guard: past its deadline, and no history read in a recovery storm.
pub is_overdue : Reading → Task → Bool
is_overdue c t =
    if ltb c.now (t.enqueued_at + t.deadline)
    then false
    else if c.storm && is_history t.priority
    then false
    else true

module _ {ℓ} {A : Type ℓ} where
  -- `findIndex(p)` and, when it finds one, `splice(index, 1)[0]`.
  pub take_first : (A → Bool) → List A → Option (A × List A)
  take_first p [] = none
  take_first p (x ∷ xs) =
      if p x
      then some (x, xs)
      else elim (take_first p xs) [ none ↦ none | some (y, rest) ↦ some (y, x ∷ rest) ]

pub rank_of : Task → ℕ
unfolding rank
rank_of t = rank t.priority

pub select_best : Scheduler → Option (Task × Scheduler)
select_best s = elim (take_best rank_of s.queue) [
  | none ↦ none
  | some (t, rest) ↦ some (t, record s { queue = rest })
]

pub select_next : Reading → Scheduler → Option (Task × Scheduler)
select_next c s = elim (take_first (is_overdue c) s.queue) [
  | some (t, rest) ↦ some (t, record s { queue = rest; deferred = s.deferred + 1 })
  | none ↦ select_best s
]

pub dispatch : Scheduler → Task → Scheduler
dispatch s t = record s { running = s.running ++ t ∷ []; running_count = s.running_count + 1 }

-- `while (runningCount < maxConcurrent && queue.length > 0)`; each round takes one task off the
-- queue, so as many rounds as there are tasks are enough.
pub pump_rounds : ℕ → (ℕ → Reading) → Scheduler → Scheduler
pump_rounds zero c s = s
pump_rounds (suc k) c s =
    if ltb s.running_count s.max_concurrent && not (is_empty s.queue)
    then elim (select_next (c k) s) [ none ↦ s | some (t, s') ↦ pump_rounds k c (dispatch s' t) ]
    else s

pub pump : (ℕ → Reading) → Scheduler → Scheduler
unfolding pump_rounds
pump c s = pump_rounds (length s.queue) c s

-- A second request joins the queued task of its id: at the better priority of the two.
pub join : ℕ → TaskPriority → ℕ → List Task → List Task
join i p caller [] = []
join i p caller (t ∷ ts) =
    let rest = join i p caller ts in
    if t.id == i
    then record t {
      priority = if ltb (rank p) (rank t.priority) then p else t.priority;
      callers = t.callers ++ caller ∷ [];
    }
      ∷ ts
    else t ∷ rest

pub enqueue : (ℕ → Reading) → ℕ → Task → ℕ → Scheduler → Scheduler
enqueue c now t caller s =
    if some_of (λ q. q.id == t.id) s.queue
    then record s { queue = join t.id t.priority caller s.queue }
    else pump c
        (record s { queue = s.queue ++ record t { enqueued_at = now; callers = caller ∷ [] } ∷ [] })

-- The work of the k-th running task ends: its callers are settled, with its value (`true`) or with
-- its error (`onError` only logs), and `finally` gives the slot back and pumps.
pub settle : (ℕ → Reading) → ℕ → Bool → Scheduler → Option (List ℕ × Scheduler)
settle c k ok s = elim (take_at k s.running) [
  | none ↦ none
  | some (t, rest) ↦ some (
    t.callers,
    pump c (record s {
      running = rest;
      running_count = s.running_count - 1;
      completed = if ok then s.completed + 1 else s.completed;
      failed = if ok then s.failed else s.failed + 1;
    }),
  )
]
