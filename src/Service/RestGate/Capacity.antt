-- ===== src/Service/RestGate/Capacity.antt =====
-- The cap of the REST gate, and who is served.
use glitch_topstep.Service.Priority.{take_best, take_best-IsBest, IsBest}
use glitch_topstep.Service.RestGate.{
  Waiter, Gate, create, acquire, remove_ticket, expire, rank_of, release, Step, arrives, expires,
  finishes, Reach, here, next,
}
use glitch_topstep.Prelude.{
  ◌==◌, Bool-cases, some_of, ℤ, ℕ, ◌-◌, ◌≤◌, ◌<◌, ◌≡◌, refl, ap, ◌∙◌, ◌≢◌, inl, inr, some, List, [],
  ◌∷◌, arith,
}

-- Never more permits out than the cap, and nobody waits while a permit is free.
pub record Inv (g : Gate) : Type 0 where
  pub capped : g.in_flight ≤ g.max_concurrent
  pub positive : 1 ≤ g.max_concurrent
  pub busy : g.waiters ≢ [] → g.in_flight ≡ g.max_concurrent

create-Inv : (cap : ℤ) (g : Gate) → create cap ≡ some g → Inv g
unfolding create
create-Inv cap g e = ground arith

acquire-Inv : (g : Gate) (w : Waiter) → Inv g → Inv (acquire g w).0
unfolding acquire
acquire-Inv g w v = ground arith

expire-Inv : (g : Gate) (t : ℕ) → Inv g → Inv (expire g t).0
unfolding expire
expire-Inv g t v = elim (Bool-cases (some_of (λ w. w.ticket == t) g.waiters)) [
  | inl e ↦ rw e (record {
    capped = v.capped;
    positive = v.positive;
    busy = λ ne. v.busy (λ none_left. ne (unfold remove_ticket in rw none_left refl));
  })
  | inr e ↦ rw e v
]

release-some :
    (g : Gate) (w : Waiter) (rest : List Waiter)
    → take_best rank_of g.waiters ≡ some (w, rest)
    → 0 < g.in_flight
    → release g ≡ (record g { waiters = rest }, some w)
unfolding release
release-some g w rest e h = ground arith

release-none :
    (g : Gate) → g.waiters ≡ [] → (release g).0 ≡ record g { in_flight = g.in_flight - 1 }
unfolding release take_best
release-none g e = ground arith

-- A permit that comes back while somebody waits stays in flight and goes to the waiter of best
-- priority, the first to arrive among those; the others keep their order.
pub release-IsBest :
    (g : Gate) (x : Waiter) (xs : List Waiter)
    → g.waiters ≡ x ∷ xs
    → 0 < g.in_flight
    → (w : Waiter) × (rest : List Waiter) × (release g ≡ (record g { waiters = rest }, some w))
      × IsBest rank_of g.waiters w rest
release-IsBest g x xs e h =
    let (w, rest, taken, best) = take_best-IsBest rank_of x xs in
    (
      w,
      rest,
      release-some g w rest (ap (take_best rank_of) e ∙ taken) h,
      (best.0, best.1, e ∙ best.2, best.3, best.4, best.5),
    )

release-Inv :
    (g : Gate) (ws : List Waiter) → g.waiters ≡ ws → Inv g → 0 < g.in_flight → Inv (release g).0
release-Inv g [] e v h =
    rw (release-none g e) (record {
      capped = omega (arith, v.capped);
      positive = v.positive;
      busy = λ ne. absurd (ne e);
    })
release-Inv g (x ∷ xs) e v h =
    let (w, rest, released, _) = release-IsBest g x xs e h in
    rw released
      (record { capped = v.capped; positive = v.positive; busy = λ _. v.busy (λ none_left. cc) })

Step-Inv : {g h : Gate} → Step g h → Inv g → Inv h
Step-Inv {g} (arrives w) v = acquire-Inv g w v
Step-Inv {g} (expires t) v = expire-Inv g t v
Step-Inv {g} (finishes h) v = release-Inv g g.waiters refl v h

Reach-Inv : {g h : Gate} → Inv g → Reach g h → Inv h
Reach-Inv v here = v
Reach-Inv v (next r s) = Step-Inv s (Reach-Inv v r)

-- However calls, timeouts and ends of work interleave after the constructor, the calls in flight
-- never pass the cap, and somebody waits only while every permit is out.
pub gate-Reach-Inv : (cap : ℤ) {g h : Gate} → create cap ≡ some g → Reach g h → Inv h
gate-Reach-Inv cap {g} e r = Reach-Inv (create-Inv cap g e) r
