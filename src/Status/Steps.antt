-- ===== src/Status/Steps.antt =====
-- The order of the steps and the progress counts of app/payroll_status.py.
use pmvp.Prelude.{◌≤◌, ◌<◌, ◌≡◌, ◌⊎◌, ◌≢◌, if◌then◌else◌, Bool, false, none, arith}
use pmvp.Status.{
  RunStatus, rejected, Stage, done, current, skipped, stage_index, step_state, lifecycle_steps,
  status_progress, at_held,
}

-- Every step before the current one is done; or it is the step of the hold, skipped.
step_state-ordered :
    (status : RunStatus) (calculated distributed was_held : Bool) (earlier later : Stage)
    → stage_index earlier < stage_index later
    → step_state status calculated distributed was_held later ≡ current
    → (step_state status calculated distributed was_held earlier ≡ done)
      ⊎ ((earlier ≡ at_held)
          × (step_state status calculated distributed was_held earlier ≡ skipped))
unfolding step_state
step_state-ordered status calculated distributed was_held earlier later h e = ground arith

-- A run that is not rejected is on a path of seven stages if it was ever held and of six if not;
-- its position is on that path, and a distributed run stands at its end with nothing next.
status_progress_lem :
    (status : RunStatus) (calculated distributed was_held : Bool)
    → status ≢ rejected
    → let p = status_progress (lifecycle_steps status calculated distributed was_held) in
      (p.position ≤ p.total)
      × (p.total ≡ (if was_held then 7 else 6))
      × ((distributed ≡ false) ⊎ ((p.position ≡ p.total) × (p.next ≡ none)))
unfolding status_progress lifecycle_steps
status_progress_lem status calculated distributed was_held h = ground arith
