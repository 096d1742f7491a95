-- ===== src/MockWorker/Queue/Progress.antt =====
-- Which calls of `Generate` can go on.
use aether_serve.Base.{
  ℕ, ◌<◌, ◌≡◌, refl, ap, subst, ◌∙◌, true, false, none, some, List, [], ◌∷◌, length, get_elem?, set,
  arith, inl, inr, ◌⊎◌, get_elem?-lt, Option-cases, Bool-cases,
}
use native.Mathlib.Decide.{dec_lt}
use aether_serve.Base.Text.{GoString}
use aether_serve.Base.Int.{pos, ltb_ℤ}
use aether_serve.Grpc.{Code}
use aether_serve.MockWorker.Job.{Outcome, status_error, output_count, fails_at}
use aether_serve.MockWorker.Queue.{
  Job, Phase, enters, counted, withdraws, listens, returns, Call, Dispatcher, idle, exits, starts,
  prefills, checks, finishes, emits, sends, Shared, Turn, take, begin, prefill, fail_before, pass,
  fail_after, decode, complete, finish, in_send, Move, count, enqueue, give_up, turn_away, withdraw,
  cancel, read_failure, read_chunk, leave, leave_stopped, hand_over, cut_short, System,
}
use aether_serve.MockWorker.Queue.Served.{has_content, content_in, IsKnown, IsServed}
use aether_serve.MockWorker.Queue.Tended.{IsTended}
use aether_serve.MockWorker.Queue.Counted.{has_returned}

module _ {F T : Type 0} (digest : GoString → GoString) (capacity : ℕ) where
  -- A step that needs no further request, and no cancellation of a call that has not returned.
  pub data Advance (s : System F T) : System F T → Type 0 where
    turns : {m : Shared F T} → Turn digest s.shared m → Advance s (record s { shared = m })
    moves :
        (i : ℕ) {k k' : Call T} {m : Shared F T}
        → get_elem? s.calls i ≡ some k
        → Move capacity i s.shared k m k'
        → (k'.context ≡ k.context) ⊎ (has_returned k.phase ≡ true)
        → Advance s (record { shared = m; calls = set s.calls i k' })

  abbrev pub CanAdvance : System F T → Type 0
  CanAdvance s = (t : System F T) × Advance s t

  can_move :
      (s : System F T) (i : ℕ) {k k' : Call T} {m : Shared F T}
      → get_elem? s.calls i ≡ some k
      → Move capacity i s.shared k m k'
      → (k'.context ≡ k.context) ⊎ (has_returned k.phase ≡ true)
      → CanAdvance s
  can_move s i e mv q = (_, moves i e mv q)

  pub can_turn : (s : System F T) {m : Shared F T} → Turn digest s.shared m → CanAdvance s
  can_turn s u = (_, turns u)

  counted-advance :
      (s : System F T) (i : ℕ) (k : Call T)
      → get_elem? s.calls i ≡ some k
      → k.phase ≡ counted
      → CanAdvance s
  counted-advance s i k e p = elim (Option-cases k.context) [
    | inr (x, c) ↦ can_move s i e (give_up p c) (inl refl)
    | inl c ↦ elim (dec_lt (length s.shared.queue) capacity) [
      | yes h ↦ can_move s i e (enqueue p h) (inl refl)
      | no h ↦ can_move s i e (turn_away p c (omega arith)) (inl refl)
    ]
  ]

  -- A call in its loop with a result at hand can read it.
  read-advance :
      (s : System F T) (i : ℕ) (k : Call T) (o : Outcome)
      → get_elem? s.calls i ≡ some k
      → k.phase ≡ listens
      → k.results ≡ some o
      → has_content o ≡ true
      → CanAdvance s
  read-advance s i k o e p r c = elim (Option-cases o.failure) [
    | inr (x, f) ↦ can_move s i e (read_failure p r f) (inl refl)
    | inl f ↦ elim (Option-cases o.chunk) [
      | inl g ↦ absurd (ground (arith, f, g, c))
      | inr (x, g) ↦
          can_move s i e
            (read_chunk p (r ∙ (λ i. some (record { chunk = g i; failure = f i; done = o.done }))))
            (inl refl)
    ]
  ]

  -- A call can go on by itself, has returned or is in its loop.
  phase-advance :
      (s : System F T) (i : ℕ) (k : Call T)
      → get_elem? s.calls i ≡ some k
      → (p : Phase) → k.phase ≡ p
      → CanAdvance s ⊎ ((has_returned k.phase ≡ true) ⊎ (k.phase ≡ listens))
  phase-advance s i k e enters p = inl (can_move s i e (count p) (inl refl))
  phase-advance s i k e counted p = inl (counted-advance s i k e p)
  phase-advance s i k e (withdraws x) p = inl (can_move s i e (withdraw p) (inl refl))
  phase-advance s i k e listens p = inr (inr p)
  phase-advance s i k e (returns x) p = inr (inl (ap has_returned p))

  -- In its loop it can go on, or nothing of what it selects on is ready.
  loop-advance :
      (s : System F T) (i : ℕ) (k : Call T)
      → get_elem? s.calls i ≡ some k
      → IsServed s.shared i k
      → k.phase ≡ listens
      → CanAdvance s ⊎ ((k.results ≡ none) × (k.context ≡ none) × (s.shared.stopped ≡ false))
  loop-advance s i k e v p = elim (Option-cases k.results) [
    | inr (o, r) ↦ inl (read-advance s i k o e p r (subst (λ x. content_in x ≡ true) r v.content))
    | inl r ↦ elim (Option-cases k.context) [
      | inr (x, c) ↦ inl (can_move s i e (leave p c) (inl refl))
      | inl c ↦ elim (Bool-cases s.shared.stopped) [
        | inl b ↦ inl (can_move s i e (leave_stopped p b) (inl refl))
        | inr b ↦ inr (r, c, b)
      ]
    ]
  ]

  -- A dispatcher that waits to hand over can, or the call that it waits for can go on or is over.
  send-advance :
      (s : System F T) (j : Job T) (next : ℕ) (o : Outcome) (k : Call T)
      → IsTended s
      → s.shared.dispatcher ≡ sends j next o
      → get_elem? s.calls j.call ≡ some k
      → CanAdvance s
  send-advance s j next o k v e g = elim (Option-cases k.results) [
    | inl r ↦ can_move s j.call g (hand_over e refl r) (inl refl)
    | inr (x, r) ↦ elim (phase-advance s j.call k g k.phase refl) [
      | inl can ↦ can
      | inr (inr p) ↦
          read-advance s j.call k x g p r
            (subst (λ x. content_in x ≡ true) r (v.served j.call g).content)
      | inr (inl p) ↦ elim (Option-cases k.context) [
        | inr (y, c) ↦ can_move s j.call g (cut_short (in_send e) refl c) (inl refl)
        | inl c ↦ can_move s j.call g (cancel (status_error Code.canceled []) c) (inr p)
      ]
    ]
  ]

  pub dispatcher-advance :
      (s : System F T)
      → IsTended s
      → (d : Dispatcher T) → s.shared.dispatcher ≡ d
      → (d ≡ idle) ⊎ ((d ≡ exits) ⊎ CanAdvance s)
  dispatcher-advance s v idle e = inl refl
  dispatcher-advance s v exits e = inr (inl refl)
  dispatcher-advance s v (starts j) e = inr (inr (can_turn s (begin e)))
  dispatcher-advance s v (prefills j) e = inr (inr (can_turn s (prefill e)))
  dispatcher-advance s v (finishes j) e = inr (inr (can_turn s (finish e)))
  dispatcher-advance s v (checks j) e = inr (
      inr (elim (Bool-cases (ltb_ℤ (pos 0) s.shared.worker.fail_before_remaining)) [
        | inl b ↦ can_turn s (fail_before e b)
        | inr b ↦ can_turn s (pass e b)
      ]))
  dispatcher-advance s v (emits j index) e = inr (
      inr (elim (dec_lt index (output_count j.request.max_output_tokens)) [
        | no h ↦ can_turn s (complete 0 e (omega arith))
        | yes h ↦ elim (Bool-cases (fails_at s.shared.worker index)) [
          | inl b ↦ can_turn s (fail_after e h b)
          | inr b ↦ can_turn s (decode 0 e h b)
        ]
      ]))
  dispatcher-advance s v (sends j next o) e =
      let known : j.call < length s.calls =
        subst (λ d. IsKnown (length s.calls) d) e v.steady.known in
      let (k, g) = get_elem?-lt s.calls j.call known in inr (inr (send-advance s j next o k v e g))

  idle-advance :
      (s : System F T) (i : ℕ) (k : Call T)
      → IsTended s
      → get_elem? s.calls i ≡ some k
      → k.phase ≡ listens
      → (k.results ≡ none) × (k.context ≡ none) × (s.shared.stopped ≡ false)
      → CanAdvance s
  idle-advance s i k v g p (r, c, b) = elim (dispatcher-advance s v s.shared.dispatcher refl) [
    | inr (inr can) ↦ can
    | inr (inl e) ↦ absurd (ground (arith, b, v.steady.exited, e))
    | inl e ↦ next s.shared.queue refl e
  ]
    where
      next : (js : List (Job T)) → s.shared.queue ≡ js → s.shared.dispatcher ≡ idle → CanAdvance s
      next [] q e = absurd (ground (arith, (v.served i g).served, p, r, c, b, q, e))
      next (j ∷ js) q e = can_turn s (take e q)

  -- As long as a call has not returned, some step is possible that needs nothing from outside.
  pub can_advance :
      (s : System F T) (i : ℕ) (k : Call T)
      → IsTended s
      → get_elem? s.calls i ≡ some k
      → has_returned k.phase ≡ false
      → CanAdvance s
  can_advance s i k v g h = elim (phase-advance s i k g k.phase refl) [
    | inl can ↦ can
    | inr (inl p) ↦ absurd (ground (arith, h, p))
    | inr (inr p) ↦ elim (loop-advance s i k g (v.served i g) p) [
      | inl can ↦ can
      | inr none_ready ↦ idle-advance s i k v g p none_ready
    ]
  ]
