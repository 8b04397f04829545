-- ===== src/Service/RecoveryGate/Passes.antt =====
-- One pass at a time, and none too few.
use glitch_topstep.Service.RecoveryGate.{RecoveryGate, idle, request, leave_loop, end_pass}
use glitch_topstep.Prelude.{
  ltb, if◌then◌else◌, ℕ, suc, ◌≤◌, ◌≡◌, refl, ◌⊎◌, Bool, true, false, arith,
}

-- The requests that no pass has started after, once one more arrived or a pass ended.
abbrev pub unserved_after : Bool → ℕ → ℕ
unserved_after started n = if started then 0 else n

abbrev pub passes_after : Bool → ℕ → ℕ
passes_after started n = if started then suc n else n

-- A gate, the requests that still wait for a pass to start, and the passes in progress.
pub data Reach : RecoveryGate → ℕ → ℕ → Type 0 where
  begins : Reach idle 0 0
  requests :
      {g : RecoveryGate} {unserved passes : ℕ}
      → Reach g unserved passes
      → Reach
          (request g).0
          (unserved_after (request g).1 (suc unserved))
          (passes_after (request g).1 passes)
  ends :
      {g : RecoveryGate} {unserved passes : ℕ} (ok : Bool)
      → Reach g unserved (suc passes)
      → Reach
          (end_pass ok g).0
          (unserved_after (end_pass ok g).1 unserved)
          (passes_after (end_pass ok g).1 passes)

record Inv (g : RecoveryGate) (unserved passes : ℕ) : Type 0 where
  counted : passes ≡ (if g.running then 1 else 0)
  asked : g.rerun_requested ≡ ltb 0 unserved
  served : g.running ≡ false → unserved ≡ 0

request-Inv :
    (g : RecoveryGate) (unserved passes : ℕ)
    → Inv g unserved passes
    → Inv
        (request g).0
        (unserved_after (request g).1 (suc unserved))
        (passes_after (request g).1 passes)
unfolding request
request-Inv g unserved passes v = record {
  counted = ground (arith, v.counted);
  asked = ground arith;
  served = λ r. ground (arith, r);
}

leave_loop-Inv :
    (g : RecoveryGate) (unserved passes : ℕ)
    → Inv g unserved (suc passes)
    → Inv
        (leave_loop g).0
        (unserved_after (leave_loop g).1 unserved)
        (passes_after (leave_loop g).1 passes)
unfolding leave_loop request
leave_loop-Inv g unserved passes v = record {
  counted = ground (arith, v.counted);
  asked = ground (arith, v.asked);
  served = λ r. ground (arith, r, v.asked, v.counted);
}

end_pass-Inv :
    (ok : Bool) (g : RecoveryGate) (unserved passes : ℕ)
    → Inv g unserved (suc passes)
    → Inv
        (end_pass ok g).0
        (unserved_after (end_pass ok g).1 unserved)
        (passes_after (end_pass ok g).1 passes)
unfolding end_pass leave_loop request
end_pass-Inv false g unserved passes v = leave_loop-Inv g unserved passes v
end_pass-Inv true g unserved passes v = record {
  counted = ground (arith, v.counted);
  asked = ground (arith, v.asked);
  served = λ r. ground (arith, r, v.asked, v.counted);
}

Reach-Inv :
    {g : RecoveryGate} {unserved passes : ℕ} → Reach g unserved passes → Inv g unserved passes
unfolding idle
Reach-Inv begins = record { counted = refl; asked = ground arith; served = λ r. refl }
Reach-Inv (requests {g} {unserved} {passes} r) = request-Inv g unserved passes (Reach-Inv r)
Reach-Inv (ends {g} {unserved} {passes} ok r) = end_pass-Inv ok g unserved passes (Reach-Inv r)

-- However requests and ends of passes interleave, and whether passes fail or not: two passes never
-- run at once, a request waits for its pass only while another pass runs, and when that one ends
-- the next starts exactly if a request waits, however many do.
pub end_pass-Reach :
    {g : RecoveryGate} {unserved passes : ℕ} (ok : Bool)
    → Reach g unserved passes
    → (passes ≤ 1)
      × ((unserved ≡ 0) ⊎ (passes ≡ 1))
      × ((passes ≡ 0) ⊎ ((end_pass ok g).1 ≡ ltb 0 unserved))
unfolding end_pass leave_loop request
end_pass-Reach {g} {unserved} {passes} ok r =
    let v = Reach-Inv r in
    (
      ground (arith, v.counted),
      ground (arith, v.counted, v.served),
      ground (arith, v.counted, v.asked),
    )
