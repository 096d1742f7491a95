-- ===== src/MockWorker/Dispatch/Idle.antt =====
-- What the counters are once the queued jobs have run.
use aether_serve.Base.{
  ℕ, zero, suc, ◌+◌, ◌^◌, ◌<◌, ◌≡◌, refl, ap, not, if_both, none, some, List, [], ◌∷◌, map, length,
  length-map, arith,
}
use aether_serve.Base.Int.{pos, ltb_ℤ}
use aether_serve.Base.Text.{GoString}
use aether_serve.Wire
use aether_serve.MockWorker.{Worker, move_to_running, add_prefixes, active_requests}
use aether_serve.MockWorker.Counters.{
  Jobs, total, start, finish, IsCounted, Fits, start-IsCounted, finish-IsCounted,
}
use aether_serve.MockWorker.Job.{
  Surroundings, Outcome, run_job, tokens_from, finish_job, fails_at, output_count,
}
use aether_serve.MockWorker.Dispatch.{Job, dispatch_job, dispatch}

module _ {F T : Type 0} where
  abbrev pub works_of : List (Job F T) → List ℕ
  works_of jobs = map (λ (j : Job F T). j.work) jobs

module _ {F T : Type 0} (digest : GoString → GoString) (j : Jobs) where
  -- Running a job does not touch the counters.
  finish_job-IsCounted :
      (w : Worker F) (r : Wire.GenerateRequest T) (s : Surroundings) (index : ℕ)
      → IsCounted w j
      → IsCounted (finish_job w r s index).0 j
  unfolding finish_job add_prefixes
  finish_job-IsCounted w r s index c = record {
    waiting_requests = c.waiting_requests;
    waiting_tokens = c.waiting_tokens;
    running_requests = c.running_requests;
    running_tokens = c.running_tokens;
  }

  tokens_from-IsCounted :
      (w : Worker F) (r : Wire.GenerateRequest T) (s : Surroundings) (left index : ℕ)
      → IsCounted w j
      → IsCounted (tokens_from digest w r s left index).0 j
  unfolding tokens_from
  tokens_from-IsCounted w r s zero index c = finish_job-IsCounted w r s index c
  tokens_from-IsCounted w r s (suc left) index c =
      let rest = tokens_from-IsCounted w r s left (suc index) c in
      if_both (λ (out : Worker F × List Outcome). IsCounted out.0 j) (fails_at w index) _ _ c
        (if_both (λ (out : Worker F × List Outcome). IsCounted out.0 j) (not (s.waited index)) _ _ c
          (if_both (λ (out : Worker F × List Outcome). IsCounted out.0 j) (s.taken index) _ _ rest
            c))

  run_job-IsCounted :
      (w : Worker F) (r : Wire.GenerateRequest T) (s : Surroundings)
      → IsCounted w j
      → IsCounted (run_job digest w r s).0 j
  unfolding run_job
  run_job-IsCounted w r s c =
      if_both (λ (out : Worker F × List Outcome). IsCounted out.0 j) (not s.prefilled) _ _ c
        (if_both (λ (out : Worker F × List Outcome). IsCounted out.0 j)
          (ltb_ℤ (pos 0) w.fail_before_remaining) _ _
          (record {
            waiting_requests = c.waiting_requests;
            waiting_tokens = c.waiting_tokens;
            running_requests = c.running_requests;
            running_tokens = c.running_tokens;
          })
          (tokens_from-IsCounted w r s (output_count r.max_output_tokens) 0 c))

module _ {F T : Type 0} (digest : GoString → GoString) where
  dispatch_job-IsCounted :
      (w : Worker F) (job : Job F T) (later : List ℕ) (n : ℕ)
      → IsCounted w (record { waiting = job.work ∷ later; running = none })
      → Fits (record { waiting = job.work ∷ later; running = none }) (suc (suc n)) 0
      → IsCounted (dispatch_job digest w job).0 (record { waiting = later; running = none })
        × Fits (record { waiting = later; running = none }) n 0
  unfolding dispatch_job start finish
  dispatch_job-IsCounted w job later n c fits =
      let (c₁, f₁) = start-IsCounted w (job.work ∷ later) none (suc n) 0 c fits in
      let c₂ =
        run_job-IsCounted digest (record { waiting = later; running = some job.work })
          (move_to_running w job.work) job.request job.surroundings c₁ in
      finish-IsCounted _ later (some job.work) n 0 c₂ f₁

  dispatch-IsCounted :
      (w : Worker F) (jobs : List (Job F T))
      → IsCounted w (record { waiting = works_of jobs; running = none })
      → Fits (record { waiting = works_of jobs; running = none }) (length jobs + length jobs) 0
      → IsCounted (dispatch digest w jobs).0 (record { waiting = []; running = none })
  unfolding dispatch
  dispatch-IsCounted w [] c fits = c
  dispatch-IsCounted w (job ∷ jobs) c fits =
      let (c', fits') =
        dispatch_job-IsCounted w job (works_of jobs) (length jobs + length jobs) c
          (omega (arith, fits), omega (arith, fits)) in
      dispatch-IsCounted (dispatch_job digest w job).0 jobs c' fits'

  length-dispatch :
      (w : Worker F) (jobs : List (Job F T)) → length (dispatch digest w jobs).1 ≡ length jobs
  unfolding dispatch
  length-dispatch w [] = refl
  length-dispatch w (job ∷ jobs) = ap suc (length-dispatch (dispatch_job digest w job).0 jobs)

  -- A worker whose counters are those of its queued jobs, of which there are fewer than 2^32 / 3 with less than 2^64 of
  -- work in all, and none runs: the dispatcher runs each of them, however they end (cut short, failed or complete), and
  -- the worker then reports no waiting and no running request or work.
  pub dispatch_idle :
      (w : Worker F) (jobs : List (Job F T))
      → IsCounted w (record { waiting = works_of jobs; running = none })
      → length jobs + length jobs + length jobs < 2 ^ 32
      → total (works_of jobs) < 2 ^ 64
      → let (w', outcomes) = dispatch digest w jobs in
        (length outcomes ≡ length jobs)
        × (active_requests w' ≡ 0)
        × (w'.state.waiting_token_count ≡ 0)
        × (w'.state.running_work_tokens ≡ 0)
  dispatch_idle w jobs c few little =
      let same : length (works_of jobs) ≡ length jobs = length-map (λ (j : Job F T). j.work) jobs in
      let v = dispatch-IsCounted w jobs c (omega (arith, few, same), omega (arith, little)) in
      (
        length-dispatch w jobs,
        omega (arith, v.waiting_requests, v.running_requests),
        v.waiting_tokens,
        v.running_tokens,
      )
