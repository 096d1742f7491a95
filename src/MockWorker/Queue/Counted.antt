-- ===== src/MockWorker/Queue/Counted.antt =====
-- The counters of waiting and running work while calls come and go.
use mathlib.Core.Option.{some-injective}
use aether_serve.Base.{
  ℕ, zero, suc, ◌^◌, ◌≤◌, ◌<◌, ◌≡◌, refl, subst, Bool, true, false, some, List, [], ◌∷◌, ◌++◌,
  length, length-append, get_elem?, set, sum, sum-append, sum-set, length-set, arith, ok,
}
use aether_serve.MockWorker.Queue.Share.{
  transit, entry, Share, with_call, IsCountedBy, Turn-IsCountedBy, Move-IsCountedBy,
}
use aether_serve.Base.Text.{GoString}
use aether_serve.Float.{Float}
use aether_serve.MockWorker.{Worker, new}
use aether_serve.Config.{WorkerConfig}
use aether_serve.MockWorker.Queue
use aether_serve.MockWorker.Queue.{
  Job, Phase, enters, counted, withdraws, listens, returns, Call, enter, Dispatcher, idle, exits,
  starts, prefills, checks, finishes, emits, sends, Shared, is_last, after_send, streamed, Turn,
  exit, take, begin, prefill, fail_before, pass, fail_after, decode, complete, finish, Blocks,
  in_prefill, in_decode, in_send, Move, count, enqueue, give_up, turn_away, withdraw, cancel,
  read_failure, read_chunk, send_fails, leave, leave_stopped, hand_over, cut_short, cut_stopped,
  System, Step, generate, move, turn, stop, Reach, start, later,
}

module _ {F T : Type 0} where
  Move-work :
      {capacity i : ℕ} {m : Shared F T} {k : Call T} {m' : Shared F T} {k' : Call T}
      → Move capacity i m k m' k'
      → k'.work ≡ k.work
  Move-work (count e) = refl
  Move-work (enqueue e q) = refl
  Move-work (give_up e f) = refl
  Move-work (turn_away e f q) = refl
  Move-work (withdraw e) = refl
  Move-work (cancel e f) = refl
  Move-work (read_failure e f g) = refl
  Move-work (read_chunk e f) = refl
  Move-work (send_fails x e f) = refl
  Move-work (leave e f) = refl
  Move-work (leave_stopped e f) = refl
  Move-work (hand_over e f g) = refl
  Move-work (cut_short e f g) = refl
  Move-work (cut_stopped e f g) = refl

module _ {T : Type 0} where
  abbrev pub share : List (Call T) → Share
  share ks = record {
    passing = sum (λ (k : Call T). transit k.phase 1) ks;
    passing_work = sum (λ (k : Call T). transit k.phase k.work) ks;
    coming = sum (λ (k : Call T). entry k.phase 1) ks;
    coming_work = sum (λ (k : Call T). entry k.phase k.work) ks;
  }

  -- The work of all calls.
  abbrev pub total : List (Call T) → ℕ
  total ks = sum (λ (k : Call T). k.work) ks

  share-append :
      (ks : List (Call T)) (k : Call T) → share (ks ++ k ∷ []) ≡ with_call k.phase k.work (share ks)
  share-append ks k = ground (
    arith,
    sum-append (λ (k : Call T). transit k.phase 1) ks (k ∷ []),
    sum-append (λ (k : Call T). transit k.phase k.work) ks (k ∷ []),
    sum-append (λ (k : Call T). entry k.phase 1) ks (k ∷ []),
    sum-append (λ (k : Call T). entry k.phase k.work) ks (k ∷ []),
  )

  -- The share of the others, where call `i` is one that counts nothing.
  share-set :
      (ks : List (Call T)) (i : ℕ) (k l : Call T)
      → get_elem? ks i ≡ some k
      → share (set ks i l)
        ≡ with_call l.phase l.work (share (set ks i (record k { phase = listens })))
  share-set [] i k l e = absurd (cc)
  share-set (q ∷ ks) zero k l e = ground arith
  share-set (q ∷ ks) (suc i) k l e = ground (arith, share-set ks i k l e)

  -- A call is set back and one with its work is put there.
  share-get :
      (ks : List (Call T)) (i : ℕ) (k : Call T)
      → get_elem? ks i ≡ some k
      → share ks ≡ with_call k.phase k.work (share (set ks i (record k { phase = listens })))
  share-get [] i k e = absurd (cc)
  share-get (q ∷ ks) zero k e = ground (arith, some-injective _ _ e)
  share-get (q ∷ ks) (suc i) k e = ground (arith, share-get ks i k e)

abbrev pub has_returned : Phase → Bool
has_returned (returns e) = true
has_returned _ = false

abbrev IsUnused : {F : Type 0} → Worker F → Type 0
IsUnused w =
    (w.state.waiting_request_count ≡ 0)
    × (w.state.waiting_token_count ≡ 0)
    × (w.state.running_request_count ≡ 0)
    × (w.state.running_work_tokens ≡ 0)

module _ {F T : Type 0} where
  abbrev pub IsCounted : System F T → Type 0
  IsCounted s = IsCountedBy s.shared (share s.calls) (length s.calls) (total s.calls)

  -- The calls are fewer than 2^32, and their work is less than 2^64.
  abbrev pub IsLight : System F T → Type 0
  IsLight s = (length s.calls < 2 ^ 32) × (total s.calls < 2 ^ 64)

module _ {F T : Type 0} where
  move-length :
      {capacity : ℕ} {m : Shared F T} (ks : List (Call T)) (i : ℕ) {k : Call T} {m' : Shared F T}
      {k' : Call T}
      → get_elem? ks i ≡ some k
      → Move capacity i m k m' k'
      → (length (set ks i k') ≡ length ks) × (total (set ks i k') ≡ total ks)
  move-length ks i {k' = k'} e mv =
      (length-set ks i k', omega (arith, sum-set (λ (k : Call T). k.work) ks i k' e, Move-work mv))

module _ {F T : Type 0} {capacity : ℕ} where
  Turn-length :
      (digest : GoString → GoString) {m m' : Shared F T}
      → Turn digest m m'
      → length m.queue ≤ capacity
      → length m'.queue ≤ capacity
  Turn-length digest (take e f) h = ground (arith, h)
  Turn-length digest (exit e f) h = h
  Turn-length digest (begin e) h = h
  Turn-length digest (prefill e) h = h
  Turn-length digest (fail_before e f) h = h
  Turn-length digest (pass e f) h = h
  Turn-length digest (fail_after e f g) h = h
  Turn-length digest (decode at e f g) h = h
  Turn-length digest (complete at e f) h = h
  Turn-length digest (finish e) h = h

  Move-length :
      {i : ℕ} {m : Shared F T} {k : Call T} {m' : Shared F T} {k' : Call T}
      → Move capacity i m k m' k'
      → length m.queue ≤ capacity
      → length m'.queue ≤ capacity
  Move-length {i} {m} {k} (enqueue e q) h = omega (
    arith,
    q,
    length-append m.queue (record { call = i; work = k.work; request = k.request } ∷ []),
  )
  Move-length (count e) h = h
  Move-length (give_up e f) h = h
  Move-length (turn_away e f q) h = h
  Move-length (withdraw e) h = h
  Move-length (cancel e f) h = h
  Move-length (read_failure e f g) h = h
  Move-length (read_chunk e f) h = h
  Move-length (send_fails x e f) h = h
  Move-length (leave e f) h = h
  Move-length (leave_stopped e f) h = h
  Move-length (hand_over e f g) h = h
  Move-length (cut_short e f g) h = h
  Move-length (cut_stopped e f g) h = h

module _ {F T : Type 0} ⦃fl : Float F⦄ (digest : GoString → GoString) (capacity : ℕ) where
  Step-IsLight : {s t : System F T} → Step digest capacity s t → IsLight t → IsLight s
  Step-IsLight {s} (generate r v) (small, light) = (
    omega (arith, small, length-append s.calls (enter r (Queue.work_of s.shared.worker r) ∷ [])),
    omega (
      arith,
      light,
      sum-append (λ (k : Call T). k.work) s.calls (enter r (Queue.work_of s.shared.worker r) ∷ []),
    ),
  )
  Step-IsLight {s} (move i e mv) (small, light) =
      let (a, b) = move-length s.calls i e mv in (omega (arith, small, a), omega (arith, light, b))
  Step-IsLight (turn u) l = l
  Step-IsLight stop l = l

  Step-IsCounted :
      {s t : System F T} → Step digest capacity s t → IsLight t → IsCounted s → IsCounted t
  Step-IsCounted {s} (generate r v) l c = ground (
    arith,
    c,
    share-append s.calls (enter r (Queue.work_of s.shared.worker r)),
    length-append s.calls (enter r (Queue.work_of s.shared.worker r) ∷ []),
    sum-append (λ (k : Call T). k.work) s.calls (enter r (Queue.work_of s.shared.worker r) ∷ []),
  )
  Step-IsCounted {s} (move i {k = k} {k' = k'} {m = m} e mv) (small, light) c =
      let rest : Share = share (set s.calls i (record k { phase = listens })) in
      let (a, b) = move-length s.calls i e mv in
      let c' =
        subst (λ x. IsCountedBy s.shared x (length s.calls) (total s.calls))
          (share-get s.calls i k e) c in
      let d =
        Move-IsCountedBy rest (length s.calls) (total s.calls) (omega (arith, small, a))
          (omega (arith, light, b)) mv c' in
      rw (a, b, share-set s.calls i k k' e) d
  Step-IsCounted {s} (turn u) (small, light) c =
      Turn-IsCountedBy (share s.calls) (length s.calls) (total s.calls) small light digest u c
  Step-IsCounted stop l c = ground (arith, c)

  Reach-IsCounted :
      {w : Worker F} {s : System F T}
      → IsUnused w
      → Reach digest capacity w s
      → IsLight s
      → IsCounted s
  Reach-IsCounted zeros start l = ground (arith, zeros)
  Reach-IsCounted zeros (later r st) l =
      Step-IsCounted st l (Reach-IsCounted zeros r (Step-IsLight st l))

  Reach-length :
      {w : Worker F} {s : System F T} → Reach digest capacity w s → length s.shared.queue ≤ capacity
  Reach-length start = omega arith
  Reach-length (later r (generate q v)) = Reach-length r
  Reach-length (later r (turn u)) = Turn-length digest u (Reach-length r)
  Reach-length (later r (move i e mv)) = Move-length mv (Reach-length r)
  Reach-length (later r stop) = Reach-length r

module _ {F T : Type 0} ⦃fl : Float F⦄ (digest : GoString → GoString) (capacity : ℕ) where
  -- However calls of `Generate`, cancellations, the dispatcher and a stop interleave from a new worker on, with fewer
  -- than 2^32 calls whose work is less than 2^64 in all: the waiting requests and tokens that the worker reports are
  -- those of the calls that are about to queue a job or have just failed to, of the queued jobs and of the job just
  -- taken; the running ones are those of the job that runs; and the channel never holds more than its capacity.
  pub generate-IsCounted :
      (config : WorkerConfig F) {w : Worker F} {s : System F T}
      → new config ≡ ok w
      → Reach digest capacity w s
      → IsLight s
      → IsCounted s × (length s.shared.queue ≤ capacity)
  unfolding new
  generate-IsCounted config {w} e r l =
      (Reach-IsCounted digest capacity (fresh w e) r l, Reach-length digest capacity r)
    where
      fresh : (w : Worker F) → new config ≡ ok w → IsUnused w
      fresh w e = ground arith
