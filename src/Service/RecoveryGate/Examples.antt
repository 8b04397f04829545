-- ===== src/Service/RecoveryGate/Examples.antt =====
-- Two requests while a pass runs.
use glitch_topstep.Service.RecoveryGate.{RecoveryGate, idle, request, end_pass}
use glitch_topstep.Service.RecoveryGate.Passes.{begins, requests, end_pass-Reach}
use glitch_topstep.Prelude.{ℕ, ◌≤◌, ◌≡◌, ◌⊎◌, true, false, ltb}

abbrev busy : RecoveryGate
busy = record { running = true; rerun_requested = true }

abbrev two : ℕ
two = 2

abbrev one : ℕ
one = 1

end_pass-Reach_example :
    (one ≤ 1) × ((two ≡ 0) ⊎ (one ≡ 1)) × ((one ≡ 0) ⊎ ((end_pass false busy).1 ≡ ltb 0 two))
unfolding request idle
end_pass-Reach_example =
    end_pass-Reach {g = busy} {unserved = two} {passes = one} false
      (requests (requests (requests begins)))
