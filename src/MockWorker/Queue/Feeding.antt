-- ===== src/MockWorker/Queue/Feeding.antt =====
-- What one step does to what a call of `Generate` has streamed.
use aether_serve.Base.{
  ℕ, ◌≡◌, refl, ap, subst, sym, ◌∙◌, true, false, ◌==◌, [], ◌∷◌, ◌++◌, append-nil, arith,
  All-append,
}
use aether_serve.Base.Text.{GoString, is_empty}
use aether_serve.MockWorker.{
  Worker, add_waiting, remove_waiting, move_to_running, finish_running, add_prefixes,
}
use aether_serve.MockWorker.Job.{token}
use aether_serve.MockWorker.Queue.{
  Job, Call, finishes, Shared, is_last, after_send, streamed, Turn, exit, take, begin, prefill,
  fail_before, pass, fail_after, decode, complete, finish, Blocks, in_prefill, in_decode, in_send,
  Move, count, enqueue, give_up, turn_away, withdraw, cancel, read_failure, read_chunk, send_fails,
  leave, leave_stopped, hand_over, cut_short, cut_stopped,
}
use aether_serve.MockWorker.Queue.Served.{is_listening, works_on, after_send-works_on}
use aether_serve.MockWorker.Queue.Numbered.{
  Origin, origin_of, IsStreamed, IsOpen, ends_final-append, chunks_of, is_marked,
}
use aether_serve.MockWorker.Queue.Fed.{
  is_new, delivered, Continues, IsGoing, IsFed, going_away, places-append, handed,
  delivered-streamed, sent-streamed,
}

module _ {F : Type 0} (digest : GoString → GoString) where
  token-full : (w : Worker F) (id : GoString) (n : ℕ) → is_empty (token digest w id n) ≡ false
  unfolding token
  token-full w id n = refl

  -- The origin is a matter of the configuration.
  pub origin_of-config :
      (w v : Worker F) → v.config ≡ w.config → origin_of digest v ≡ origin_of digest w
  unfolding token
  origin_of-config w v e = ap (λ c. origin_of digest (record w { config = c })) e

module _ {F T : Type 0} where
  pub Turn-IsFed :
      (digest : GoString → GoString) (worker : Origin) (i : ℕ) (k : Call T) {m m' : Shared F T}
      → Turn digest m m'
      → origin_of digest m.worker ≡ worker
      → IsFed worker m i k
      → IsFed worker m' i k
  Turn-IsFed digest worker i k (exit e f) n v = ground (arith, v)
  Turn-IsFed digest worker i k (take e f) n v = ground (arith, v)
  Turn-IsFed digest worker i k (begin e) n v = ground (arith, v)
  Turn-IsFed digest worker i k (prefill e) n v = ground (arith, v)
  Turn-IsFed digest worker i k (fail_before e f) n v = ground (arith, v)
  Turn-IsFed digest worker i k (pass e f) n v = ground (arith, v)
  Turn-IsFed digest worker i k (fail_after e f g) n v = ground (arith, v)
  Turn-IsFed digest worker i k {m = m} (decode {j = j} {index = index} at e f g) n v = ground (
    arith,
    v,
    ap (λ (o : Origin). o.id) n,
    ap (λ (o : Origin). o.tokens j.request.request_id index) n,
    token-full digest m.worker j.request.request_id index,
  )
  Turn-IsFed digest worker i k (complete at e f) n v =
      ground (arith, v, ap (λ (o : Origin). o.id) n)
  Turn-IsFed digest worker i k (finish e) n v = ground (arith, v)

  Blocks-IsFed :
      (worker : Origin) (i : ℕ) (k : Call T) {m : Shared F T} {j : Job T}
      → Blocks m j
      → IsFed worker m i k
      → IsFed worker (record m { dispatcher = finishes j }) i k
  Blocks-IsFed worker i k (in_prefill e) v = ground (arith, v)
  Blocks-IsFed worker i k (in_decode e f g) v = ground (arith, v)
  Blocks-IsFed worker i k (in_send e) v = ground (arith, v)

  pub Move-IsFed :
      (worker : Origin) {capacity i : ℕ} {m : Shared F T} {k : Call T} {m' : Shared F T}
      {k' : Call T}
      → Move capacity i m k m' k'
      → IsFed worker m i k
      → IsFed worker m' i k'
  Move-IsFed worker (count e) v = ground (arith, v)
  Move-IsFed worker {i = i} {m = m} {k = k} (enqueue e q) v =
      let j : Job T = record { call = i; work = k.work; request = k.request } in
      let away : works_on i m.dispatcher ≡ false = ground (arith, e, v.once) in
      let (results, sent) = v.before (ap is_new e) in
      let nothing : delivered k ≡ [] = λ i. sent i ++ chunks_of (results i) in
      record {
        sent = v.sent;
        complete = λ z. absurd (cc);
        marked = λ z. ap is_marked results;
        once = ground (arith, e, v.once, places-append i m.queue j);
        queued =
            All-append (λ x. x.call ≡ i → x.request ≡ k.request) m.queue (j ∷ []) v.queued
              ((λ z. refl), tt);
        before = λ z. absurd (cc);
        waiting = λ z p. nothing;
        pending = λ z. subst (IsStreamed k.request worker 0) (sym nothing) tt;
        going = λ z. going_away worker i k.request (delivered k) m.dispatcher away;
      }
  Move-IsFed worker (give_up e f) v = ground (arith, v)
  Move-IsFed worker (turn_away e f q) v = ground (arith, v)
  Move-IsFed worker (withdraw e) v = ground (arith, v)
  Move-IsFed worker (cancel e f) v = ground (arith, v)
  Move-IsFed worker (read_failure e f g) v = ground (arith, v)
  Move-IsFed worker {k = k} (read_chunk {c = c} {last = true} e f) v = record {
    sent =
        subst (IsStreamed k.request worker 0) (sent-streamed k c true f)
          (v.pending (ap is_listening e));
    complete = λ z. ground (arith, ends_final-append k.sent c, v.marked, e, f);
    marked = λ z. refl;
    once = ground (arith, e, v.once);
    queued = v.queued;
    before = λ z. absurd (cc);
    waiting = λ z. absurd (cc);
    pending = λ z. absurd (cc);
    going = λ z. absurd (cc);
  }
  Move-IsFed worker {i = i} {m = m} {k = k} (read_chunk {c = c} {last = false} e f) v =
      let same : delivered k ≡ delivered (streamed k c false) =
        sym (delivered-streamed k c false f) in
      let h = ap is_listening e in
      record {
        sent = subst (IsStreamed k.request worker 0) (sent-streamed k c false f) (v.pending h);
        complete = λ z. absurd (cc);
        marked = λ z. refl;
        once = ground (arith, e, v.once);
        queued = v.queued;
        before = λ z. absurd (cc);
        waiting = λ z p. sym same ∙ v.waiting h p;
        pending = λ z. subst (IsStreamed k.request worker 0) same (v.pending h);
        going = λ z. subst (λ cs. IsGoing worker i k.request cs m.dispatcher) same (v.going h);
      }
  Move-IsFed worker (send_fails x e f) v = ground (arith, v)
  Move-IsFed worker (leave e f) v = ground (arith, v)
  Move-IsFed worker (leave_stopped e f) v = ground (arith, v)
  Move-IsFed worker {i = i} {m = m} {k = k} (hand_over {j = j} {next = next} {o = o} e f g) v =
      let same : delivered k ≡ k.sent = ap (λ x. k.sent ++ chunks_of x) g ∙ append-nil k.sent in
      let new_ones = λ (z : is_listening k.phase ≡ true).
        let (request, open_, more) =
          subst (λ d. IsGoing worker i k.request (delivered k) d) e (v.going z) f in
        handed worker i k.request j k.sent next o.chunk o.failure o.done request
          (subst (IsOpen k.request worker 0) same open_)
          (subst (λ cs. Continues k.request worker cs next o) same more) in
      record {
        sent = v.sent;
        complete = v.complete;
        marked =
            λ z. (subst (λ d. IsGoing worker i k.request (delivered k) d) e (v.going z) f).2.marked;
        once = ground (arith, v.once, e, after_send-works_on i j next (is_last o));
        queued = v.queued;
        before = λ z. absurd (ground (arith, z, v.once, e, f));
        waiting = λ z p. absurd (ground (arith, p, v.once, e, f));
        pending = λ z. (new_ones z).0;
        going = λ z. (new_ones z).1;
      }
  Move-IsFed worker {i = i} {k = k} (cut_short e f g) v = Blocks-IsFed worker i k e v
  Move-IsFed worker {i = i} {k = k} (cut_stopped e f g) v = Blocks-IsFed worker i k e v

  pub Move-IsFed_other :
      (worker : Origin) {capacity i : ℕ} {m : Shared F T} {k : Call T} {m' : Shared F T}
      {k' : Call T}
      → Move capacity i m k m' k'
      → (n : ℕ) (l : Call T) → (i == n) ≡ false
      → IsFed worker m n l
      → IsFed worker m' n l
  Move-IsFed_other worker (count e) n l d v = ground (arith, v)
  Move-IsFed_other worker {i = i} {m = m} {k = k} (enqueue e q) n l d v =
      let j : Job T = record { call = i; work = k.work; request = k.request } in
      ground (
        arith,
        v,
        places-append n m.queue j,
        All-append (λ x. x.call ≡ n → x.request ≡ l.request) m.queue (j ∷ []) v.queued
            ((λ z. absurd (ground (arith, d, z))), tt),
      )
  Move-IsFed_other worker (give_up e f) n l d v = v
  Move-IsFed_other worker (turn_away e f q) n l d v = v
  Move-IsFed_other worker (withdraw e) n l d v = ground (arith, v)
  Move-IsFed_other worker (cancel e f) n l d v = v
  Move-IsFed_other worker (read_failure e f g) n l d v = v
  Move-IsFed_other worker (read_chunk e f) n l d v = v
  Move-IsFed_other worker (send_fails x e f) n l d v = v
  Move-IsFed_other worker (leave e f) n l d v = v
  Move-IsFed_other worker (leave_stopped e f) n l d v = v
  Move-IsFed_other worker {i = i} (hand_over {j = j} {next = next} {o = o} e f g) n l d v = record {
    sent = v.sent;
    complete = v.complete;
    marked = v.marked;
    once = ground (arith, v.once, e, after_send-works_on n j next (is_last o));
    queued = v.queued;
    before = v.before;
    waiting = v.waiting;
    pending = v.pending;
    going = λ z.
        going_away worker n l.request (delivered l) (after_send j next (is_last o))
          (ground (arith, d, f, after_send-works_on n j next (is_last o)));
  }
  Move-IsFed_other worker (cut_short e f g) n l d v = Blocks-IsFed worker n l e v
  Move-IsFed_other worker (cut_stopped e f g) n l d v = Blocks-IsFed worker n l e v

  pub Turn-config :
      (digest : GoString → GoString) {m m' : Shared F T}
      → Turn digest m m'
      → m'.worker.config ≡ m.worker.config
  Turn-config digest (exit e f) = refl
  Turn-config digest (take e f) = refl
  Turn-config digest (begin e) = unfold move_to_running in refl
  Turn-config digest (prefill e) = refl
  Turn-config digest (fail_before e f) = refl
  Turn-config digest (pass e f) = refl
  Turn-config digest (fail_after e f g) = refl
  Turn-config digest (decode at e f g) = refl
  Turn-config digest (complete at e f) = unfold add_prefixes in refl
  Turn-config digest (finish e) = unfold finish_running in refl

  pub Move-config :
      {capacity i : ℕ} {m : Shared F T} {k : Call T} {m' : Shared F T} {k' : Call T}
      → Move capacity i m k m' k'
      → m'.worker.config ≡ m.worker.config
  Move-config (count e) = unfold add_waiting in refl
  Move-config (enqueue e q) = refl
  Move-config (give_up e f) = refl
  Move-config (turn_away e f q) = refl
  Move-config (withdraw e) = unfold remove_waiting in refl
  Move-config (cancel e f) = refl
  Move-config (read_failure e f g) = refl
  Move-config (read_chunk e f) = refl
  Move-config (send_fails x e f) = refl
  Move-config (leave e f) = refl
  Move-config (leave_stopped e f) = refl
  Move-config (hand_over e f g) = refl
  Move-config (cut_short e f g) = refl
  Move-config (cut_stopped e f g) = refl
