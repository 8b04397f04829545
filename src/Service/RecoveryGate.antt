-- ===== src/Service/RecoveryGate.antt =====
-- RecoveryPipelineGate of src/service/recovery-pipeline-gate.ts. A pass is one call of `execute`, and
-- what it does before it first waits is taken not to call the gate again.
mod Passes
mod Examples
use glitch_topstep.Prelude.{Bool, true, false, ◌||◌, if◌then◌else◌}

pub record RecoveryGate : Type 0 where
  pub running : Bool
  pub rerun_requested : Bool

pub idle : RecoveryGate
idle = record { running = false; rerun_requested = false }

abbrev pub should_skip_invalidate_reconcile : Bool → Bool → Bool
should_skip_invalidate_reconcile pipeline_running hub_recovery_active =
    pipeline_running || hub_recovery_active

-- A call, and whether a pass starts in it: the loop takes the request at once.
pub request : RecoveryGate → RecoveryGate × Bool
request g =
    if g.running
    then (record g { rerun_requested = true }, false)
    else (record g { running = true; rerun_requested = false }, true)

-- The `finally` of the loop.
pub leave_loop : RecoveryGate → RecoveryGate × Bool
unfolding request
leave_loop g =
    if g.rerun_requested
    then request (record g { running = false })
    else (record g { running = false }, false)

-- A pass ends well or with an error, and whether the next one starts then.
pub end_pass : Bool → RecoveryGate → RecoveryGate × Bool
unfolding leave_loop
end_pass ok g =
    if ok
    then (if g.rerun_requested then (record g { rerun_requested = false }, true) else leave_loop g)
    else leave_loop g
