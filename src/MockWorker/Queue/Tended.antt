-- ===== src/MockWorker/Queue/Tended.antt =====
-- The calls of `Generate` in every reachable state: each that waits for results is served.
use aether_serve.Base.{
  ℕ, ◌<◌, ◌≤◌, ◌≡◌, subst, sym, some, [], ◌∷◌, length, length-append, length-set, get_elem?, set,
  get_elem?-append, get_elem?-set, lt_of_get_elem?, arith, All-imp, inl, inr,
}
use aether_serve.Base.Text.{GoString}
use aether_serve.Float.{Float}
use aether_serve.MockWorker.{Worker}
use aether_serve.MockWorker.Queue
use aether_serve.MockWorker.Queue.{
  Job, Phase, enters, counted, withdraws, listens, returns, Call, enter, Dispatcher, idle, exits,
  starts, prefills, checks, finishes, emits, sends, Shared, is_last, outcome_of, after_send,
  streamed, Turn, exit, take, begin, prefill, fail_before, pass, fail_after, decode, complete,
  finish, Blocks, in_prefill, in_decode, in_send, Move, count, enqueue, give_up, turn_away,
  withdraw, cancel, read_failure, read_chunk, send_fails, leave, leave_stopped, hand_over,
  cut_short, cut_stopped, System, Step, generate, move, turn, stop, Reach, start, later,
}
use aether_serve.MockWorker.Queue.Served.{
  IsKnown, IsServed, IsSteady, Turn-IsServed, Turn-IsSteady, Move-IsServed, Move-IsServed_other,
  Move-IsSteady,
}

module _ {T : Type 0} where
  IsKnown-mono : (d : Dispatcher T) {n p : ℕ} → n ≤ p → IsKnown n d → IsKnown p d
  IsKnown-mono (starts j) h v = omega (arith, h, v)
  IsKnown-mono (prefills j) h v = omega (arith, h, v)
  IsKnown-mono (checks j) h v = omega (arith, h, v)
  IsKnown-mono (emits j index) h v = omega (arith, h, v)
  IsKnown-mono (sends j next o) h v = omega (arith, h, v)
  IsKnown-mono (finishes j) h v = tt
  IsKnown-mono idle h v = tt
  IsKnown-mono exits h v = tt

module _ {F T : Type 0} where
  pub record IsTended (s : System F T) : Type 0 where
    pub steady : IsSteady (length s.calls) s.shared
    pub served : (i : ℕ) {k : Call T} → get_elem? s.calls i ≡ some k → IsServed s.shared i k

  IsSteady-mono : {n p : ℕ} {m : Shared F T} → n ≤ p → IsSteady n m → IsSteady p m
  IsSteady-mono {n} {p} {m} h v = record {
    content = v.content;
    exited = v.exited;
    known = IsKnown-mono m.dispatcher h v.known;
    all_known =
        All-imp (λ (j : Job T). j.call < n) (λ (j : Job T). j.call < p) (λ j b. omega (arith, b, h))
          m.queue v.all_known;
  }

  move-IsTended :
      {capacity : ℕ} {s : System F T} {i : ℕ} {k : Call T} {m : Shared F T} {k' : Call T}
      → get_elem? s.calls i ≡ some k
      → Move capacity i s.shared k m k'
      → IsTended s
      → IsTended (record { shared = m; calls = set s.calls i k' })
  move-IsTended {s = s} {i = i} {k = k} {m = m} {k' = k'} e mv v = record {
    steady =
        subst (λ n. IsSteady n m) (sym (length-set s.calls i k'))
          (Move-IsSteady mv (length s.calls) (lt_of_get_elem? s.calls i e) v.steady);
    served = λ n {k = l} q. elim (get_elem?-set s.calls i n k' q) [
      | inl (a, b) ↦
          subst (λ x. IsServed m n x) b
            (subst (λ x. IsServed m x k') a (Move-IsServed mv v.steady.content (v.served i e)))
      | inr (a, b) ↦ Move-IsServed_other mv n l (ground (arith, a)) (v.served n b)
    ];
  }

module _ {F T : Type 0} ⦃fl : Float F⦄ (digest : GoString → GoString) (capacity : ℕ) where
  Step-IsTended : {s t : System F T} → Step digest capacity s t → IsTended s → IsTended t
  Step-IsTended {s} (generate r c) v =
      let new : Call T = enter r (Queue.work_of s.shared.worker r) in
      record {
        steady = IsSteady-mono (omega (arith, length-append s.calls (new ∷ []))) v.steady;
        served = λ n {k = l} q. elim (get_elem?-append s.calls new n q) [
          | inl e ↦ v.served n e
          | inr (p, e) ↦ subst (λ x. IsServed s.shared n x) e (ground arith)
        ];
      }
  Step-IsTended (move i e mv) v = move-IsTended e mv v
  Step-IsTended {s} (turn u) v = record {
    steady = Turn-IsSteady digest (length s.calls) u v.steady;
    served = λ n {k = l} q. Turn-IsServed digest n l u (v.served n q);
  }
  Step-IsTended stop v = record {
    steady = ground (arith, v.steady);
    served = λ n {k = l} q. ground (arith, v.served n q);
  }

  pub Reach-IsTended : {w : Worker F} {s : System F T} → Reach digest capacity w s → IsTended s
  Reach-IsTended start = record { steady = ground arith; served = λ n {k = l} q. absurd (cc) }
  Reach-IsTended (later r st) = Step-IsTended st (Reach-IsTended r)
