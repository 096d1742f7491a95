-- ===== src/MockWorker/Queue/Streams.antt =====
-- What the calls of `Generate` stream.
use aether_serve.Base.{
  ℕ, get_elem?, get_elem?-append, get_elem?-set, All-imp, ◌<◌, ◌≡◌, refl, ap, subst, ◌∙◌, true,
  false, none, some, List, [], ◌∷◌, length, arith, All, inl, inr,
}
use aether_serve.Base.Text.{GoString}
use aether_serve.Wire
use aether_serve.Float.{Float}
use aether_serve.MockWorker.{Worker}
use aether_serve.MockWorker.Queue
use aether_serve.MockWorker.Queue.{
  Job, Phase, enters, counted, withdraws, listens, returns, Call, enter, Dispatcher, idle, exits,
  starts, prefills, checks, finishes, emits, sends, Shared, is_last, outcome_of, after_send,
  streamed, Turn, exit, take, begin, prefill, fail_before, pass, fail_after, decode, complete,
  finish, Blocks, in_prefill, in_decode, in_send, Move, count, enqueue, give_up, turn_away,
  withdraw, cancel, read_failure, read_chunk, send_fails, leave, leave_stopped, hand_over,
  cut_short, cut_stopped, System, Step, generate, move, turn, stop, Reach, start, later,
}
use aether_serve.MockWorker.Queue.Served.{works_on}
use aether_serve.MockWorker.Queue.Numbered.{Origin, origin_of, IsStreamed, ends_final}
use aether_serve.MockWorker.Queue.Served.{IsKnown, IsSteady}
use aether_serve.MockWorker.Queue.Tended.{IsTended, Reach-IsTended}
use aether_serve.MockWorker.Queue.Fed.{is_complete, places, IsFed}
use aether_serve.MockWorker.Queue.Feeding.{
  Turn-IsFed, Move-IsFed, Move-IsFed_other, Turn-config, Move-config, origin_of-config,
}

module _ {T : Type 0} where
  known-places : (n : ℕ) (js : List (Job T)) → All (λ j. j.call < n) js → places n js ≡ 0
  known-places n [] h = refl
  known-places n (j ∷ js) h = ground (arith, h.0, known-places n js h.1)

  known-works_on : (n : ℕ) (d : Dispatcher T) → IsKnown n d → works_on n d ≡ false
  known-works_on n (starts j) h = ground (arith, h)
  known-works_on n (prefills j) h = ground (arith, h)
  known-works_on n (checks j) h = ground (arith, h)
  known-works_on n (emits j index) h = ground (arith, h)
  known-works_on n (sends j next o) h = ground (arith, h)
  known-works_on n (finishes j) h = refl
  known-works_on n idle h = refl
  known-works_on n exits h = refl

module _ {F T : Type 0} where
  enter-IsFed :
      (worker : Origin) (n : ℕ) (m : Shared F T) (r : Wire.GenerateRequest T) (work : ℕ)
      → IsSteady n m
      → IsFed worker m n (enter r work)
  enter-IsFed worker n m r work v = record {
    sent = tt;
    complete = λ z. absurd (cc);
    marked = λ z. refl;
    once =
        ground (arith, known-places n m.queue v.all_known, known-works_on n m.dispatcher v.known);
    queued =
        All-imp (λ (j : Job T). j.call < n) (λ j. j.call ≡ n → j.request ≡ r)
          (λ j h e. absurd (omega (arith, h, e))) m.queue v.all_known;
    before = λ z. (refl, refl);
    waiting = λ z. absurd (cc);
    pending = λ z. absurd (cc);
    going = λ z. absurd (cc);
  }

  pub record AreFed (digest : GoString → GoString) (worker : Origin) (s : System F T) : Type 0 where
    pub named : origin_of digest s.shared.worker ≡ worker
    pub fed : (i : ℕ) {k : Call T} → get_elem? s.calls i ≡ some k → IsFed worker s.shared i k

module _ {F T : Type 0} ⦃fl : Float F⦄ (digest : GoString → GoString) (capacity : ℕ)
    (worker : Origin) where
  Step-AreFed :
      {s t : System F T}
      → Step digest capacity s t
      → IsTended s
      → AreFed digest worker s
      → AreFed digest worker t
  Step-AreFed {s} (generate r c) u v =
      let work = Queue.work_of s.shared.worker r in
      record {
        named = v.named;
        fed = λ i {k = k} q. elim (get_elem?-append s.calls (enter r work) i q) [
          | inl e ↦ v.fed i e
          | inr (p, e) ↦
              subst (λ n. IsFed worker s.shared n k) p
                (subst (λ x. IsFed worker s.shared (length s.calls) x) e
                  (enter-IsFed worker (length s.calls) s.shared r work u.steady))
        ];
      }
  Step-AreFed {s} (move i {k' = k'} {m = m} e mv) u v = record {
    named = origin_of-config digest s.shared.worker m.worker (Move-config mv) ∙ v.named;
    fed = λ n {k = l} q. elim (get_elem?-set s.calls i n k' q) [
      | inl (a, b) ↦
          subst (λ x. IsFed worker m n x) b
            (subst (λ x. IsFed worker m x k') a (Move-IsFed worker mv (v.fed i e)))
      | inr (a, b) ↦ Move-IsFed_other worker mv n l (ground (arith, a)) (v.fed n b)
    ];
  }
  Step-AreFed {s} (turn {m = m} x) u v = record {
    named = origin_of-config digest s.shared.worker m.worker (Turn-config digest x) ∙ v.named;
    fed = λ n {k = l} q. Turn-IsFed digest worker n l x v.named (v.fed n q);
  }
  Step-AreFed stop u v = record { named = v.named; fed = λ n {k = l} q. ground (arith, v.fed n q) }

  Reach-AreFed :
      {w : Worker F} {s : System F T}
      → origin_of digest w ≡ worker
      → Reach digest capacity w s
      → AreFed digest worker s
  Reach-AreFed e start = record { named = e; fed = λ n {k = l} q. absurd (cc) }
  Reach-AreFed e (later r st) = Step-AreFed st (Reach-IsTended digest capacity r) (Reach-AreFed e r)

module _ {F T : Type 0} ⦃fl : Float F⦄ (digest : GoString → GoString) (capacity : ℕ) where
  -- However the calls, the dispatcher, cancellations and a stop interleave, each call of `Generate` has at any time
  -- streamed chunks of its own request and this worker that are numbered 0, 1, 2 and so on without a gap: the tokens
  -- that the seed and the request determine, with a text, below the output limit of 8 or of the request, then at most one
  -- final chunk at that limit, with the finish reason, and nothing after it; and a call that has returned without an
  -- error has streamed all of them, the final one last.
  pub generate-IsStreamed :
      {w : Worker F} {s : System F T}
      → Reach digest capacity w s
      → (i : ℕ) {k : Call T} → get_elem? s.calls i ≡ some k
      → IsStreamed k.request (origin_of digest w) 0 k.sent
        × (k.phase ≡ returns none → ends_final k.sent ≡ true)
  generate-IsStreamed {w} r i {k} e =
      let v = (Reach-AreFed digest capacity (origin_of digest w) refl r).fed i e in
      (v.sent, λ z. v.complete (ap is_complete z))
