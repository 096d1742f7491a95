-- ===== src/MockWorker/Queue/Served.antt =====
-- Who serves a call of `Generate` that waits for results.
use aether_serve.Base.{
  ℕ, ◌<◌, ◌≡◌, refl, Bool, true, false, ◌||◌, ◌==◌, if◌then◌else◌, Option, none, some, List, [],
  ◌∷◌, ◌++◌, arith, All, All-append,
}
use aether_serve.Base.Text.{GoString}
use aether_serve.Grpc.{Transport}
use aether_serve.MockWorker.Job.{Outcome}
use aether_serve.MockWorker.Queue.{
  Job, Phase, listens, Call, Dispatcher, exits, starts, prefills, checks, emits, sends, Shared,
  is_last, after_send, Turn, exit, take, begin, prefill, fail_before, pass, fail_after, decode,
  complete, finish, Blocks, in_prefill, in_decode, in_send, Move, count, enqueue, give_up,
  turn_away, withdraw, cancel, read_failure, read_chunk, send_fails, leave, leave_stopped,
  hand_over, cut_short, cut_stopped,
}

abbrev pub is_listening : Phase → Bool
is_listening listens = true
is_listening _ = false

abbrev pub is_done : Option Transport → Bool
is_done none = false
is_done (some e) = true

-- An error or a chunk.
abbrev pub has_content : Outcome → Bool
has_content o = elim o.failure [
  | some e ↦ true
  | none ↦ elim o.chunk [ some c ↦ true | none ↦ false ]
]

abbrev pub content_in : Option Outcome → Bool
content_in none = true
content_in (some o) = has_content o

abbrev pub last_in : Option Outcome → Bool
last_in none = false
last_in (some o) = is_last o

module _ {T : Type 0} where
  abbrev pub queues : ℕ → List (Job T) → Bool
  queues i [] = false
  queues i (j ∷ js) = (j.call == i) || queues i js

  -- The dispatcher has a job of the call that it has not ended.
  abbrev pub works_on : ℕ → Dispatcher T → Bool
  works_on i (starts j) = j.call == i
  works_on i (prefills j) = j.call == i
  works_on i (checks j) = j.call == i
  works_on i (emits j index) = j.call == i
  works_on i (sends j next o) = j.call == i
  works_on i _ = false

  abbrev pub sends_content : Dispatcher T → Bool
  sends_content (sends j next o) = has_content o
  sends_content _ = true

  abbrev pub has_exited : Dispatcher T → Bool
  has_exited exits = true
  has_exited _ = false

  -- The calls of the jobs that the dispatcher waits for.
  abbrev pub IsKnown : ℕ → Dispatcher T → Type 0
  IsKnown n (starts j) = j.call < n
  IsKnown n (prefills j) = j.call < n
  IsKnown n (checks j) = j.call < n
  IsKnown n (emits j index) = j.call < n
  IsKnown n (sends j next o) = j.call < n
  IsKnown n _ = Unit

  queues-append :
      (i : ℕ) (js : List (Job T)) (j : Job T)
      → queues i (js ++ j ∷ []) ≡ (queues i js || (j.call == i))
  queues-append i [] j = ground arith
  queues-append i (x ∷ js) j = ground (arith, queues-append i js j)

  pub after_send-works_on :
      (i : ℕ) (j : Job T) (next : ℕ) (last : Bool)
      → works_on i (after_send j next last) ≡ (if last then false else j.call == i)
  after_send-works_on i j next true = refl
  after_send-works_on i j next false = refl

module _ {F T : Type 0} where
  -- A call in its loop is in the queue or in work, or has its last result at hand, or a context is done.
  abbrev pub is_served : Shared F T → ℕ → Call T → Bool
  is_served m i k =
      queues i m.queue
      || works_on i m.dispatcher
      || last_in k.results
      || is_done k.context
      || m.stopped

  pub record IsServed (m : Shared F T) (i : ℕ) (k : Call T) : Type 0 where
    pub served : is_listening k.phase ≡ true → is_served m i k ≡ true
    pub content : content_in k.results ≡ true

  -- What holds of the dispatcher, of `n` calls.
  pub record IsSteady (n : ℕ) (m : Shared F T) : Type 0 where
    pub content : sends_content m.dispatcher ≡ true
    pub exited : has_exited m.dispatcher ≡ true → m.stopped ≡ true
    pub known : IsKnown n m.dispatcher
    pub all_known : All (λ (j : Job T). j.call < n) m.queue

  pub Turn-IsServed :
      (digest : GoString → GoString) (i : ℕ) (k : Call T) {m m' : Shared F T}
      → Turn digest m m'
      → IsServed m i k
      → IsServed m' i k
  Turn-IsServed digest i k (exit e f) v = ground (arith, v)
  Turn-IsServed digest i k (take e f) v = ground (arith, v)
  Turn-IsServed digest i k (begin e) v = ground (arith, v)
  Turn-IsServed digest i k (prefill e) v = ground (arith, v)
  Turn-IsServed digest i k (fail_before e f) v = ground (arith, v)
  Turn-IsServed digest i k (pass e f) v = ground (arith, v)
  Turn-IsServed digest i k (fail_after e f g) v = ground (arith, v)
  Turn-IsServed digest i k (decode at e f g) v = ground (arith, v)
  Turn-IsServed digest i k (complete at e f) v = ground (arith, v)
  Turn-IsServed digest i k (finish e) v = ground (arith, v)

  pub Turn-IsSteady :
      (digest : GoString → GoString) (n : ℕ) {m m' : Shared F T}
      → Turn digest m m'
      → IsSteady n m
      → IsSteady n m'
  Turn-IsSteady digest n (exit e f) v = ground (arith, v)
  Turn-IsSteady digest n (take e f) v = ground (arith, v)
  Turn-IsSteady digest n (begin e) v = ground (arith, v)
  Turn-IsSteady digest n (prefill e) v = ground (arith, v)
  Turn-IsSteady digest n (fail_before e f) v = ground (arith, v)
  Turn-IsSteady digest n (pass e f) v = ground (arith, v)
  Turn-IsSteady digest n (fail_after e f g) v = ground (arith, v)
  Turn-IsSteady digest n (decode at e f g) v = ground (arith, v)
  Turn-IsSteady digest n (complete at e f) v = ground (arith, v)
  Turn-IsSteady digest n (finish e) v = ground (arith, v)

  Blocks-works_on :
      (i : ℕ) {m : Shared F T} {j : Job T} → Blocks m j → works_on i m.dispatcher ≡ (j.call == i)
  Blocks-works_on i (in_prefill e) = ground (arith, e)
  Blocks-works_on i (in_decode e f g) = ground (arith, e)
  Blocks-works_on i (in_send e) = ground (arith, e)

  -- A step of a call serves it on.
  pub Move-IsServed :
      {capacity i : ℕ} {m : Shared F T} {k : Call T} {m' : Shared F T} {k' : Call T}
      → Move capacity i m k m' k'
      → sends_content m.dispatcher ≡ true
      → IsServed m i k
      → IsServed m' i k'
  Move-IsServed (count e) c v = ground (arith, v)
  Move-IsServed {i = i} {m = m} {k = k} (enqueue e q) c v =
      ground (
        arith,
        v,
        queues-append i m.queue (record { call = i; work = k.work; request = k.request }),
      )
  Move-IsServed (give_up e f) c v = ground (arith, v)
  Move-IsServed (turn_away e f q) c v = ground (arith, v)
  Move-IsServed (withdraw e) c v = ground (arith, v)
  Move-IsServed (cancel e f) c v = ground (arith, v)
  Move-IsServed (read_failure e f g) c v = ground (arith, v)
  Move-IsServed (read_chunk {last = true} e f) c v = ground (arith, v)
  Move-IsServed (read_chunk {last = false} e f) c v = ground (arith, v)
  Move-IsServed (send_fails x e f) c v = ground (arith, v)
  Move-IsServed (leave e f) c v = ground (arith, v)
  Move-IsServed (leave_stopped e f) c v = ground (arith, v)
  Move-IsServed {i = i} (hand_over {j = j} {next = next} {o = o} e f g) c v =
      ground (arith, v, c, after_send-works_on i j next (is_last o))
  Move-IsServed (cut_short e f g) c v = ground (arith, v)
  Move-IsServed (cut_stopped e f g) c v = ground (arith, v)

  -- It serves the other calls on, too.
  pub Move-IsServed_other :
      {capacity i : ℕ} {m : Shared F T} {k : Call T} {m' : Shared F T} {k' : Call T}
      → Move capacity i m k m' k'
      → (n : ℕ) (l : Call T) → (i == n) ≡ false
      → IsServed m n l
      → IsServed m' n l
  Move-IsServed_other (count e) n l d v = ground (arith, v)
  Move-IsServed_other {i = i} {m = m} {k = k} (enqueue e q) n l d v =
      ground (
        arith,
        v,
        queues-append n m.queue (record { call = i; work = k.work; request = k.request }),
      )
  Move-IsServed_other (give_up e f) n l d v = v
  Move-IsServed_other (turn_away e f q) n l d v = v
  Move-IsServed_other (withdraw e) n l d v = ground (arith, v)
  Move-IsServed_other (cancel e f) n l d v = v
  Move-IsServed_other (read_failure e f g) n l d v = v
  Move-IsServed_other (read_chunk e f) n l d v = v
  Move-IsServed_other (send_fails x e f) n l d v = v
  Move-IsServed_other (leave e f) n l d v = v
  Move-IsServed_other (leave_stopped e f) n l d v = v
  Move-IsServed_other {i = i} (hand_over {j = j} {next = next} {o = o} e f g) n l d v =
      ground (arith, v, after_send-works_on n j next (is_last o))
  Move-IsServed_other (cut_short e f g) n l d v = ground (arith, v, Blocks-works_on n e)
  Move-IsServed_other (cut_stopped e f g) n l d v = ground (arith, v, Blocks-works_on n e)

  after_send-IsSteady :
      (n : ℕ) (m : Shared F T) (j : Job T) (next : ℕ) (last : Bool)
      → IsSteady n m
      → j.call < n
      → IsSteady n (record m { dispatcher = after_send j next last })
  after_send-IsSteady n m j next true v h = ground (arith, v)
  after_send-IsSteady n m j next false v h = ground (arith, v)

  pub Move-IsSteady :
      {capacity i : ℕ} {m : Shared F T} {k : Call T} {m' : Shared F T} {k' : Call T}
      → Move capacity i m k m' k'
      → (n : ℕ) → i < n
      → IsSteady n m
      → IsSteady n m'
  Move-IsSteady (count e) n h v = ground (arith, v)
  Move-IsSteady {i = i} {m = m} {k = k} (enqueue e q) n h v =
      let j : Job T = record { call = i; work = k.work; request = k.request } in
      record {
        content = v.content;
        exited = v.exited;
        known = v.known;
        all_known = All-append (λ (j : Job T). j.call < n) m.queue (j ∷ []) v.all_known (h, tt);
      }
  Move-IsSteady (give_up e f) n h v = v
  Move-IsSteady (turn_away e f q) n h v = v
  Move-IsSteady (withdraw e) n h v = ground (arith, v)
  Move-IsSteady (cancel e f) n h v = v
  Move-IsSteady (read_failure e f g) n h v = v
  Move-IsSteady (read_chunk e f) n h v = v
  Move-IsSteady (send_fails x e f) n h v = v
  Move-IsSteady (leave e f) n h v = v
  Move-IsSteady (leave_stopped e f) n h v = v
  Move-IsSteady {m = m} (hand_over {j = j} {next = next} {o = o} e f g) n h v =
      after_send-IsSteady n m j next (is_last o) v (omega (arith, h, f))
  Move-IsSteady (cut_short e f g) n h v = ground (arith, v)
  Move-IsSteady (cut_stopped e f g) n h v = ground (arith, v)
