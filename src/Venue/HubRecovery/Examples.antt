-- ===== src/Venue/HubRecovery/Examples.antt =====
-- A recovery of a hub at concrete times.
use glitch_topstep.Venue.HubRecovery.{
  user, suspect, reconnecting, resubscribing, HubRecovery, new_hub_recovery,
  idle_hub_recovery_snapshot, default_hub_recovery_deadline_ms, snapshot, begin_attempt, complete,
  deadline_expired,
}
use glitch_topstep.Venue.HubRecovery.Watchdog.{
  Event, begins, progresses, completes, fails, apply, run, deadline_expired-run,
}
use glitch_topstep.Prelude.{◌≡◌, refl, true, false, List, [], ◌∷◌, arith}

abbrev hub : HubRecovery
hub = new_hub_recovery default_hub_recovery_deadline_ms

-- The drop fails once and is tried again, while a completion of the recovery before comes late.
abbrev events : List Event
events =
    progresses resubscribing 1 20
    ∷ fails 1
    ∷ begins user reconnecting 90000
    ∷ completes 0 90001
    ∷ progresses resubscribing 1 90010
    ∷ []

same_snapshot : snapshot hub ≡ idle_hub_recovery_snapshot
unfolding snapshot
same_snapshot = refl

deadline_expired-run_example :
    ((snapshot (run events (begin_attempt user suspect 10 hub).0)).active ≡ true)
    × (deadline_expired 120010 (run events (begin_attempt user suspect 10 hub).0) ≡ true)
deadline_expired-run_example =
    deadline_expired-run user suspect 10 120010 events hub refl refl
      (refl, (tt, (refl, ((λ e. omega arith), (refl, tt)))))

completed_test :
    (snapshot (complete 1 90020 (run events (begin_attempt user suspect 10 hub).0)).0).active
    ≡ false
unfolding snapshot complete run apply begin_attempt
completed_test = refl
