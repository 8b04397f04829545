-- ===== src/Service/TaskScheduler/Selection.antt =====
-- Which task the scheduler takes next.
use mathlib.Core.Path.{subst}
use glitch_topstep.Service.TaskScheduler.{
  Task, Scheduler, Reading, is_history, is_overdue, take_first, rank_of, select_best, select_next,
}
use glitch_topstep.Service.Priority.{
  TaskPriority, history_sync, rank, take_best, IsBest, take_best-IsBest,
}
use glitch_topstep.Prelude.{
  Bool-cases, some_inj, All, ◌+◌, ◌≤◌, ◌<◌, ◌≡◌, refl, sym, ap, ◌∙◌, ◌⊎◌, inl, inr, Bool, true,
  false, none, some, List, [], ◌∷◌, ◌++◌, arith,
}

module _ {ℓ} {A : Type ℓ} (p : A → Bool) where
  abbrev IsFirst : List A → A → List A → Type ℓ
  IsFirst xs t rest =
      (front : List A) × (back : List A) × (xs ≡ front ++ t ∷ back)
      × (rest ≡ front ++ back)
      × All (λ x. p x ≡ false) front
      × (p t ≡ true)

  take_first-IsFirst :
      (xs : List A)
      → ((take_first p xs ≡ none) × All (λ x. p x ≡ false) xs)
        ⊎ ((t : A) × (rest : List A) × (take_first p xs ≡ some (t, rest)) × IsFirst xs t rest)
  unfolding take_first
  take_first-IsFirst [] = inl (refl, tt)
  take_first-IsFirst (x ∷ xs) = elim (Bool-cases (p x)) [
    | inl e ↦ inr (x, xs, rw e refl, ([], xs, refl, refl, tt, e))
    | inr e ↦ elim (take_first-IsFirst xs) [
      | inl (n, a) ↦ inl (rw (e, n) refl, (e, a))
      | inr (t, rest, found, first) ↦ inr (
        t,
        x ∷ rest,
        rw (e, found) refl,
        (x ∷ first.0, first.1, ap (◌∷◌ x) first.2, ap (◌∷◌ x) first.3, (e, first.4), first.5),
      )
    ]
  ]

-- The first overdue task if there is one, and else the first of best priority.
abbrev pub IsSelected : Reading → Scheduler → Task → Scheduler → Type 0
IsSelected c s t s' =
    ((rest : List Task) × IsFirst (is_overdue c) s.queue t rest
      × (s' ≡ record s { queue = rest; deferred = s.deferred + 1 }))
    ⊎ (All (λ q. is_overdue c q ≡ false) s.queue
        × (rest : List Task) × IsBest rank_of s.queue t rest
        × (s' ≡ record s { queue = rest }))

select_best-some :
    (s : Scheduler) (t : Task) (rest : List Task)
    → take_best rank_of s.queue ≡ some (t, rest)
    → select_best s ≡ some (t, record s { queue = rest })
unfolding select_best
select_best-some s t rest e = rw (e, select_best) refl

select_next_best :
    (c : Reading) (s : Scheduler) (t : Task) (rest : List Task)
    → take_first (is_overdue c) s.queue ≡ none
    → take_best rank_of s.queue ≡ some (t, rest)
    → select_next c s ≡ some (t, record s { queue = rest })
unfolding select_next
select_next_best c s t rest n e = rw (n, select_next) (select_best-some s t rest e)

select_next_first :
    (c : Reading) (s : Scheduler) (t : Task) (rest : List Task)
    → take_first (is_overdue c) s.queue ≡ some (t, rest)
    → select_next c s ≡ some (t, record s { queue = rest; deferred = s.deferred + 1 })
unfolding select_next
select_next_first c s t rest e = rw (e, select_next) refl

-- While tasks are queued one is always taken: the first that is overdue, which counts as deferred,
-- and if none is, the first of those of best priority. The others keep their order.
pub select_next-IsSelected :
    (c : Reading) (s : Scheduler) (x : Task) (xs : List Task)
    → s.queue ≡ x ∷ xs
    → (t : Task) × (s' : Scheduler) × (select_next c s ≡ some (t, s')) × IsSelected c s t s'
select_next-IsSelected c s x xs e = elim (take_first-IsFirst (is_overdue c) s.queue) [
  | inl (n, a) ↦
      let (t, rest, taken, best) = take_best-IsBest rank_of x xs in
      (
        t,
        record s { queue = rest },
        select_next_best c s t rest n (ap (take_best rank_of) e ∙ taken),
        inr (a, rest, (best.0, best.1, e ∙ best.2, best.3, best.4, best.5), refl),
      )
  | inr (t, rest, found, first) ↦ (
    t,
    record s { queue = rest; deferred = s.deferred + 1 },
    select_next_first c s t rest found,
    inl (rest, first, refl),
  )
]

rank-history : (p : TaskPriority) → 4 ≤ rank p → p ≡ history_sync
unfolding rank
rank-history p h = ground arith

rank-le : (p : TaskPriority) → rank p ≤ 4
unfolding rank
rank-le p = ground arith

All-history :
    (front back : List Task)
    → All (λ q. 4 < rank_of q) front
    → All (λ q. 4 ≤ rank_of q) back
    → All (λ q. q.priority ≡ history_sync) (front ++ back)
unfolding rank_of
All-history [] [] a b = tt
All-history [] (q ∷ back) a b = (rank-history q.priority b.0, All-history [] back tt b.1)
All-history (q ∷ front) back a b = absurd (omega (arith, rank-le q.priority, a.0))

overdue_in_storm :
    (c : Reading) (t : Task) → c.storm ≡ true → t.priority ≡ history_sync → is_overdue c t ≡ false
unfolding is_overdue is_history
overdue_in_storm c t st h = ground arith

storm-IsSelected :
    (c : Reading) (s : Scheduler) (t : Task) (s' : Scheduler)
    → c.storm ≡ true
    → t.priority ≡ history_sync
    → IsSelected c s t s'
    → All (λ q. q.priority ≡ history_sync) s'.queue
unfolding rank_of rank
storm-IsSelected c s t s' st h (inl (rest, first, _)) = cc (overdue_in_storm c t st h, first.5)
storm-IsSelected c s t s' st h (inr (_, rest, best, e)) =
    rw (e, best.3) (All-history best.0 best.1 (rw h at best.4) (rw h at best.5))

select_next_empty : (c : Reading) (s : Scheduler) → s.queue ≡ [] → select_next c s ≡ none
unfolding select_next select_best take_first take_best
select_next_empty c s e = ground arith

-- In a recovery storm a history read is taken only when nothing but history reads is queued,
-- overdue or not.
pub select_next_storm :
    (c : Reading) (s : Scheduler) (t : Task) (s' : Scheduler)
    → c.storm ≡ true
    → select_next c s ≡ some (t, s')
    → t.priority ≡ history_sync
    → All (λ q. q.priority ≡ history_sync) s'.queue
select_next_storm c s t s' st taken h = by_queue s.queue refl
  where
    by_queue : (q : List Task) → s.queue ≡ q → All (λ q. q.priority ≡ history_sync) s'.queue
    by_queue [] e = cc (select_next_empty c s e)
    by_queue (x ∷ xs) e =
        let (t', s'', found, selected) = select_next-IsSelected c s x xs e in
        storm-IsSelected c s t s' st h (
          subst (λ (r : Task × Scheduler). IsSelected c s r.0 r.1) (some_inj (sym found ∙ taken))
            selected)
