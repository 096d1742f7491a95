-- ===== src/Tests/JobRuns.antt =====
-- A worker's session with the router, and a job from the router's request to the client.
use aether_serve.Base.{ℕ, ◌≡◌, refl, true, false, List, [], ◌∷◌, arith, ok, All}
use aether_serve.Base.Int.{ℤ}
use aether_serve.Base.Text.{str, str_eq}
use aether_serve.Wire
use aether_serve.Config.{validate_worker}
use aether_serve.Gateway.Server.{Control}
use aether_serve.Gateway.Stream.{receive}
use aether_serve.Gateway.Stream.Order.{sent}
use aether_serve.Gateway.Commit.{completed, forward}
use aether_serve.Gateway.Commit.Transcript.{writes}
use aether_serve.MockWorker.{Worker, new}
use aether_serve.MockWorker.Dispatch.{Job}
use aether_serve.MockWorker.Job.{Surroundings, check_request, run_job, generate}
use aether_serve.MockWorker.Job.Delivery.{streamed, sent_request, reply, job_delivered}
use aether_serve.MockWorker.Session.{
  start, registration, registers, others, Moment, Event, changes, ticks, adds_waiting,
  removes_waiting, adds_prefixes,
}
use aether_serve.MockWorker.Registration.{Round, unreachable, connected, registration_loop}
use aether_serve.MockWorker.Registration.Rejoined.{registration_loop-IsUnbroken}
use aether_serve.MockWorker.Session.Ready.{IsSendable}
use aether_serve.MockWorker.Session.Accepted.{IsUnbroken}
use aether_serve.Tests.Fixtures.{integers, request}
use aether_serve.Tests.GatewayRuns.{plain, carried}
use aether_serve.Tests.RegistryRuns.{pair}
use aether_serve.Tests.WorkerRuns.{worker_config, fresh, blocks}

abbrev pub calm : Surroundings
calm = record { prefilled = true; waited = λ n. true; taken = λ n. true; clock = λ n. n }

job_delivered_example :
    let job = (run_job (λ s. s) fresh (sent_request (λ s. s) plain fresh calm request) calm).1 in
    (check_request fresh (sent_request (λ s. s) plain fresh calm request) ≡ ok tt)
    × (forward (
          writes (
            receive plain request
              (str "w")
              0
              (sent plain request (str "w") 9 (generate (streamed job)).chunks)))
        ≡ (reply (λ s. s) plain fresh calm request 8 0, completed))
job_delivered_example =
    job_delivered (λ s. s) plain fresh calm request 9
      (record { model = refl; request_id = refl; attempt_id = refl; limit = omega arith })
      (record { prefilled = refl; waited = λ n. refl; taken = λ n. refl })
      (record { before = refl; after = refl }) carried

abbrev moment : ℕ → Moment
moment n = record { stamped = n; observed = n; read = n }

-- Another worker registers.
abbrev other_worker : Wire.RegisterWorkerRequest ℤ ℕ
other_worker = record (registration plain fresh 1 fresh.state) { worker_id = str "v" }

-- A job waits, its prefixes are cached and another worker registers, between two ticks.
abbrev events : List (Event ℤ ℕ)
events =
    ticks (moment 2)
    ∷ changes (adds_waiting 5)
    ∷ changes (adds_prefixes blocks)
    ∷ others (registers 2 other_worker)
    ∷ ticks (moment 3)
    ∷ []

abbrev control : Control ℤ
control = record { registry = pair; ready = true }

-- No router at first, then one, and then another with an empty registry.
abbrev rounds : List (Round ℤ ℕ)
rounds =
    unreachable (adds_waiting 3 ∷ [])
    ∷ connected control (moment 1) events (removes_waiting 3 ∷ [])
    ∷ connected (record { registry = record pair { workers = [] }; ready = false }) (moment 8)
        (ticks (moment 9) ∷ []) []
    ∷ []

registration_loop-IsUnbroken_example :
    All (λ s. IsUnbroken s (str "w")) (registration_loop plain (start fresh (str ":1")) rounds).1
unfolding new validate_worker
registration_loop-IsUnbroken_example =
    registration_loop-IsUnbroken plain worker_config fresh (str ":1") rounds refl refl (omega arith)
      (omega arith)
      (
        (tt, tt),
        (
          (
            (carried 1, carried 1),
            (
              (carried 2, carried 2),
              (tt, (valid, (unfold str_eq in refl, ((carried 3, carried 3), tt)))),
            ),
            (tt, tt),
          ),
          (((carried 8, carried 8), ((carried 9, carried 9), tt), tt), tt),
        ),
      )
  where
    valid : All IsSendable blocks
    valid = (
      ((omega arith, refl), omega arith),
      (((omega arith, refl), omega arith), (((omega arith, refl), omega arith), tt)),
    )

abbrev job : ℕ → Job ℤ ℕ
job work = record {
  work = work;
  request = sent_request (λ s. s) plain fresh calm request;
  surroundings = calm;
}

-- Two jobs wait.
abbrev loaded : Worker ℤ
loaded = record fresh {
  state = record (fresh.state) { waiting_request_count = 2; waiting_token_count = 12 };
}
