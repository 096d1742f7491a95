-- ===== src/MockWorker/Counters.antt =====
-- The counters of waiting and running work against the jobs that wait and run.
use aether_serve.Base.{
  ℕ, suc, ◌+◌, ◌^◌, ◌<◌, ◌≡◌, Option, none, some, List, [], ◌∷◌, ◌++◌, length, length-append, arith,
  ok,
}
use aether_serve.Float.{Float}
use aether_serve.Config.{WorkerConfig}
use aether_serve.MockWorker.{
  Worker, add_waiting, remove_waiting, move_to_running, finish_running, new,
}

-- The works of the queued jobs, oldest first, and of the one that runs.
pub record Jobs : Type 0 where
  pub waiting : List ℕ
  pub running : Option ℕ

abbrev pub total : List ℕ → ℕ
total [] = 0
total (x ∷ xs) = x + total xs

abbrev pub running_count : Option ℕ → ℕ
running_count none = 0
running_count (some x) = 1

abbrev pub running_work : Option ℕ → ℕ
running_work none = 0
running_work (some x) = x

total-append : (xs ys : List ℕ) → total (xs ++ ys) ≡ total xs + total ys
total-append [] ys = omega arith
total-append (x ∷ xs) ys = omega (arith, total-append xs ys)

-- What the goroutines of a worker do: `Generate` queues a job, or counts one and then finds the queue full;
-- `dispatch` starts the oldest job, or finishes the one that runs.
pub data Action : Type 0 where
  queues turns_away : ℕ → Action
  starts finishes : Action

module _ {F : Type 0} where
  -- One dispatcher takes a job when none runs.
  unfoldable pub start : Worker F → List ℕ → Option ℕ → Worker F × Jobs
  start w (work ∷ later) none =
      (move_to_running w work, record { waiting = later; running = some work })
  start w [] none = (w, record { waiting = []; running = none })
  start w xs (some x) = (w, record { waiting = xs; running = some x })

  unfoldable pub finish : Worker F → List ℕ → Option ℕ → Worker F × Jobs
  finish w xs (some work) = (finish_running w work, record { waiting = xs; running = none })
  finish w xs none = (w, record { waiting = xs; running = none })

  unfoldable pub perform : Worker F → Jobs → Action → Worker F × Jobs
  perform w j (queues work) = (add_waiting w work, record j { waiting = j.waiting ++ work ∷ [] })
  perform w j (turns_away work) = (remove_waiting (add_waiting w work) work, j)
  perform w j starts = start w j.waiting j.running
  perform w j finishes = finish w j.waiting j.running

  unfoldable pub perform_all : Worker F → Jobs → List Action → Worker F × Jobs
  perform_all w j [] = (w, j)
  perform_all w j (a ∷ acts) = let (w', j') = perform w j a in perform_all w' j' acts

abbrev pub work_of : Action → ℕ
work_of (queues work) = work
work_of (turns_away work) = work
work_of _ = 0

abbrev pub works : List Action → ℕ
works [] = 0
works (a ∷ acts) = work_of a + works acts

-- The counters say what the jobs are.
pub record IsCounted {F : Type 0} (w : Worker F) (j : Jobs) : Type 0 where
  pub waiting_requests : w.state.waiting_request_count ≡ length j.waiting
  pub waiting_tokens : w.state.waiting_token_count ≡ total j.waiting
  pub running_requests : w.state.running_request_count ≡ running_count j.running
  pub running_tokens : w.state.running_work_tokens ≡ running_work j.running

-- The jobs fit the counters with `n` more of the total work `extra`.
abbrev pub Fits : Jobs → ℕ → ℕ → Type 0
Fits j n extra =
    (length j.waiting + running_count j.running + n < 2 ^ 32)
    × (total j.waiting + running_work j.running + extra < 2 ^ 64)

module _ {F : Type 0} where
  pub start-IsCounted :
      (w : Worker F) (xs : List ℕ) (r : Option ℕ) (n extra : ℕ)
      → IsCounted w (record { waiting = xs; running = r })
      → Fits (record { waiting = xs; running = r }) (suc n) extra
      → let (w', j') = start w xs r in IsCounted w' j' × Fits j' n extra
  unfolding start move_to_running
  start-IsCounted w (work ∷ later) none n extra c fits = grind (arith, c, fits)
  start-IsCounted w [] none n extra c fits = (c, (omega (arith, fits), omega (arith, fits)))
  start-IsCounted w xs (some x) n extra c fits = (c, (omega (arith, fits), omega (arith, fits)))

  pub finish-IsCounted :
      (w : Worker F) (xs : List ℕ) (r : Option ℕ) (n extra : ℕ)
      → IsCounted w (record { waiting = xs; running = r })
      → Fits (record { waiting = xs; running = r }) (suc n) extra
      → let (w', j') = finish w xs r in IsCounted w' j' × Fits j' n extra
  unfolding finish finish_running
  finish-IsCounted w xs (some work) n extra c fits = grind (arith, c, fits)
  finish-IsCounted w xs none n extra c fits = (c, (omega (arith, fits), omega (arith, fits)))

  perform-IsCounted :
      (w : Worker F) (j : Jobs) (a : Action) (n extra : ℕ)
      → IsCounted w j
      → Fits j (suc n) (work_of a + extra)
      → let (w', j') = perform w j a in IsCounted w' j' × Fits j' n extra
  unfolding perform add_waiting remove_waiting
  perform-IsCounted w j (queues work) n extra c fits =
      grind
        (arith, c, fits, total-append j.waiting (work ∷ []), length-append j.waiting (work ∷ []))
  perform-IsCounted w j (turns_away work) n extra c fits = grind (arith, c, fits)
  perform-IsCounted w j starts n extra c fits =
      start-IsCounted w j.waiting j.running n extra c (omega (arith, fits), omega (arith, fits))
  perform-IsCounted w j finishes n extra c fits =
      finish-IsCounted w j.waiting j.running n extra c (omega (arith, fits), omega (arith, fits))

  perform_all-IsCounted :
      (w : Worker F) (j : Jobs) (acts : List Action)
      → IsCounted w j
      → Fits j (length acts) (works acts)
      → let (w', j') = perform_all w j acts in IsCounted w' j'
  unfolding perform_all
  perform_all-IsCounted w j [] c fits = c
  perform_all-IsCounted w j (a ∷ acts) c fits =
      let (c', fits') = perform-IsCounted w j a (length acts) (works acts) c fits in
      perform_all-IsCounted (perform w j a).0 (perform w j a).1 acts c' fits'

module _ {F : Type 0} ⦃fl : Float F⦄ where
  -- From a new worker, after fewer than 2^32 actions whose works come to less than 2^64: the counters
  -- that the worker reports are the number and the total work of the jobs that wait and of the one that runs.
  pub perform_all-new-IsCounted :
      (config : WorkerConfig F) {w : Worker F} (acts : List Action)
      → new config ≡ ok w
      → length acts < 2 ^ 32
      → works acts < 2 ^ 64
      → let (w', j') = perform_all w (record { waiting = []; running = none }) acts in
        IsCounted w' j'
  unfolding new
  perform_all-new-IsCounted config {w} acts e n m =
      perform_all-IsCounted w (record { waiting = []; running = none }) acts (fresh w e)
        (omega (arith, n), omega (arith, m))
    where
      fresh :
          (w : Worker F) → new config ≡ ok w → IsCounted w (record { waiting = []; running = none })
      fresh w e = ground arith
