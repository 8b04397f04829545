-- ===== src/Service/RestGate.antt =====
-- RestConcurrencyGate of src/projectx/rest-concurrency.ts: a cap on the REST calls in flight, and a
-- queue of waiters served by priority. A waiter's promise settles when the waiter leaves the queue
-- (`start` runs on an entry that `release` has spliced out, and the timer splices its own out), so
-- its `settled` flag is read off the queue. A ticket stands for the identity of the waiter object.
use glitch_topstep.Service.Priority.{TaskPriority, rank, take_best}
mod Capacity
mod Examples
use glitch_topstep.Prelude.{
  ltb, leb, ◌==◌, if◌then◌else◌, ltb→lt, leb→le, ==_iff, Bool-cases, Option-cases, is_some, is_none,
  or_else, length, is_empty, length-append, some_of, every, keep, find, length-keep-le, All, ℤ, pos,
  negsuc, pos_part, neg_part, sub_ℕ, ◌+ℤ◌, ◌-ℤ◌, ◌*ℤ◌, ◌≤ℤ◌, ◌<ℤ◌, ltb_ℤ, leb_ℤ, eqb_ℤ, max_ℤ,
  min_ℤ, +ℤ_parts, -ℤ_parts, eq_of_parts, int_laws, Number, nan, neg_infinity, pos_infinity, finite,
  is_finite, num_lt, num_eq, num_le, is_positive, ℕ, zero, suc, ◌+◌, ◌-◌, ◌*◌, ◌≤◌, ◌<◌, min, max,
  ◌≡◌, refl, sym, ap, ◌∙◌, ◌≢◌, ◌↔◌, ◌⊎◌, inl, inr, Bool, true, false, not, ◌&&◌, ◌||◌, Option,
  none, some, List, [], ◌∷◌, ◌++◌, map, arith, ℕ_discrete,
}

pub record Waiter : Type 0 where
  pub ticket : ℕ
  pub priority : TaskPriority

pub record Gate : Type 0 where
  pub max_concurrent : ℕ
  pub in_flight : ℕ
  pub waiters : List Waiter

-- The constructor: it throws on a cap below 1.
pub create : ℤ → Option Gate
create cap =
    if leb_ℤ (pos 1) cap
    then some (record { max_concurrent = pos_part cap; in_flight = 0; waiters = [] })
    else none

-- A permit at once (`true`), or a place in the queue.
pub acquire : Gate → Waiter → Gate × Bool
acquire g w =
    if ltb g.in_flight g.max_concurrent
    then (record g { in_flight = g.in_flight + 1 }, true)
    else (record g { waiters = g.waiters ++ w ∷ [] }, false)

-- `waiters.indexOf(waiter)` and `splice(index, 1)`.
pub remove_ticket : ℕ → List Waiter → List Waiter
remove_ticket t [] = []
remove_ticket t (w ∷ ws) = let rest = remove_ticket t ws in if w.ticket == t then ws else w ∷ rest

-- The acquire timer fires: `true` when the promise is rejected.
pub expire : Gate → ℕ → Gate × Bool
expire g t =
    if some_of (λ w. w.ticket == t) g.waiters
    then (record g { waiters = remove_ticket t g.waiters }, true)
    else (g, false)

pub rank_of : Waiter → ℕ
unfolding rank
rank_of w = rank w.priority

-- A permit comes back; the best waiter, if there is one, starts with it.
pub release : Gate → Gate × Option Waiter
release g = elim (take_best rank_of g.waiters) [
  | none ↦ (record g { in_flight = g.in_flight - 1 }, none)
  | some (w, rest) ↦ (record g { in_flight = g.in_flight - 1 + 1; waiters = rest }, some w)
]

-- What happens to a gate: a call of `run`, its timer, or the end of the work of a permit's holder.
pub data Step (g : Gate) : Gate → Type 0 where
  arrives : (w : Waiter) → Step g (acquire g w).0
  expires : (t : ℕ) → Step g (expire g t).0
  finishes : 0 < g.in_flight → Step g (release g).0

pub data Reach (g : Gate) : Gate → Type 0 where
  here : Reach g g
  next : {h k : Gate} → Reach g h → Step h k → Reach g k
