-- ===== src/MockWorker/Dispatch.antt =====
-- internal/mockworker/worker.go: `dispatch`, which runs the queued jobs one after the other. The queue is the list of them.
pub mod Idle
use aether_serve.Base.{ℕ, List, [], ◌∷◌}
use aether_serve.Base.Text.{GoString}
use aether_serve.Wire
use aether_serve.MockWorker.{Worker, move_to_running, finish_running}
use aether_serve.MockWorker.Job.{Surroundings, Outcome, run_job}

-- The struct `job`, with what it meets when it runs.
pub record Job (F T : Type 0) : Type 0 where
  pub work : ℕ
  pub request : Wire.GenerateRequest T
  pub surroundings : Surroundings

module _ {F T : Type 0} (digest : GoString → GoString) where
  -- One turn of the loop.
  unfoldable pub dispatch_job : Worker F → Job F T → Worker F × List Outcome
  dispatch_job w job =
      let (w', outcomes) =
        run_job digest (move_to_running w job.work) job.request job.surroundings in
      (finish_running w' job.work, outcomes)

  -- The loop, until the queue is empty.
  unfoldable pub dispatch : Worker F → List (Job F T) → Worker F × List (List Outcome)
  dispatch w [] = (w, [])
  dispatch w (job ∷ jobs) =
      let (w', outcomes) = dispatch_job w job in
      let (w'', later) = dispatch w' jobs in (w'', outcomes ∷ later)
