-- ===== src/MockWorker/Queue/Fed.antt =====
-- What a call of `Generate` has streamed and what its job has in hand.
use aether_serve.Base.{
  ℕ, suc, ◌+◌, ◌<◌, ◌≤◌, ◌≡◌, refl, ap, subst, sym, ◌∙◌, Bool, true, false, ◌==◌, Option, none,
  some, List, [], ◌∷◌, ◌++◌, length, append-nil, arith, All, length-append,
}
use aether_serve.Model.{Chunk}
use aether_serve.Wire
use aether_serve.Grpc.{Transport}
use aether_serve.MockWorker.Job.{Outcome, output_count}
use aether_serve.MockWorker.Queue.{
  Job, Phase, enters, counted, returns, Call, Dispatcher, idle, exits, starts, prefills, checks,
  finishes, emits, sends, Shared, is_last, outcome_of, after_send, streamed,
}
use aether_serve.MockWorker.Queue.Served.{is_listening, works_on}
use aether_serve.MockWorker.Queue.Numbered.{
  Origin, IsChunkOf, IsStreamed, IsOpen, IsOpen-IsStreamed, IsOpen-append, IsStreamed-append,
  ends_final, chunks_of, is_marked,
}

abbrev pub is_new : Phase → Bool
is_new enters = true
is_new counted = true
is_new _ = false

-- A call that has returned without an error.
abbrev pub is_complete : Phase → Bool
is_complete (returns none) = true
is_complete _ = false

abbrev pub one_if : Bool → ℕ
one_if true = 1
one_if false = 0

module _ {T : Type 0} where
  abbrev pub places : ℕ → List (Job T) → ℕ
  places i [] = 0
  places i (j ∷ js) = one_if (j.call == i) + places i js

  -- What has come to the call: the chunks that it has streamed, and the one in its channel.
  abbrev pub delivered : Call T → List Chunk
  delivered k = k.sent ++ chunks_of k.results

  -- The outcome to hand over continues the chunks `cs`, of which the next one has the index `next`.
  pub record Continues (r : Wire.GenerateRequest T) (worker : Origin) (cs : List Chunk) (next : ℕ)
      (o : Outcome) : Type 0 where
    pub marked : is_marked (some o) ≡ true
    pub follows : All (IsChunkOf r worker (length cs)) (chunks_of (some o))
    pub more :
        is_last o ≡ false → (suc (length cs) ≡ next) × (next ≤ output_count r.max_output_tokens)

  -- How far the dispatcher is with the call's job, where `cs` has come to the call.
  abbrev pub IsGoing : Origin → ℕ → Wire.GenerateRequest T → List Chunk → Dispatcher T → Type 0
  IsGoing worker i r cs (starts j) = j.call ≡ i → (j.request ≡ r) × (cs ≡ [])
  IsGoing worker i r cs (prefills j) = j.call ≡ i → (j.request ≡ r) × (cs ≡ [])
  IsGoing worker i r cs (checks j) = j.call ≡ i → (j.request ≡ r) × (cs ≡ [])
  IsGoing worker i r cs (emits j index) =
      j.call ≡ i
      → (j.request ≡ r)
        × IsOpen r worker 0 cs
        × (length cs ≡ index)
        × (index ≤ output_count r.max_output_tokens)
  IsGoing worker i r cs (sends j next o) =
      j.call ≡ i → (j.request ≡ r) × IsOpen r worker 0 cs × Continues r worker cs next o
  IsGoing worker i r cs _ = Unit

  pub going_away :
      (worker : Origin) (i : ℕ) (r : Wire.GenerateRequest T) (cs : List Chunk) (d : Dispatcher T)
      → works_on i d ≡ false
      → IsGoing worker i r cs d
  going_away worker i r cs (starts j) h = λ e. absurd (ground (arith, h, e))
  going_away worker i r cs (prefills j) h = λ e. absurd (ground (arith, h, e))
  going_away worker i r cs (checks j) h = λ e. absurd (ground (arith, h, e))
  going_away worker i r cs (emits j index) h = λ e. absurd (ground (arith, h, e))
  going_away worker i r cs (sends j next o) h = λ e. absurd (ground (arith, h, e))
  going_away worker i r cs (finishes j) h = tt
  going_away worker i r cs idle h = tt
  going_away worker i r cs exits h = tt

  pub places-append :
      (i : ℕ) (js : List (Job T)) (j : Job T)
      → places i (js ++ j ∷ []) ≡ places i js + one_if (j.call == i)
  places-append i [] j = omega arith
  places-append i (x ∷ js) j = omega (arith, places-append i js j)

  -- What a hand-over adds.
  pub handed :
      (worker : Origin) (i : ℕ) (r : Wire.GenerateRequest T) (j : Job T) (cs : List Chunk)
      (next : ℕ) (x : Option Chunk) (y : Option Transport) (b : Bool)
      → let o : Outcome = record { chunk = x; failure = y; done = b } in
        j.request ≡ r
        → IsOpen r worker 0 cs
        → Continues r worker cs next o
        → IsStreamed r worker 0 (cs ++ chunks_of (some o))
          × IsGoing worker i r (cs ++ chunks_of (some o)) (after_send j next (is_last o))
  handed worker i r j cs next none y b e h c = (
    subst (IsStreamed r worker 0) (sym (append-nil cs)) (IsOpen-IsStreamed r worker 0 cs h),
    subst (λ last. IsGoing worker i r (cs ++ []) (after_send j next last)) (sym c.marked) tt,
  )
  handed worker i r j cs next (some x) (some y) b e h c = absurd (ground (arith, c.marked))
  handed worker i r j cs next (some x) none true e h c = (
    IsStreamed-append r worker 0 cs x h
        (subst (λ n. IsChunkOf r worker n x) (omega arith) c.follows.0),
    tt,
  )
  handed worker i r j cs next (some x) none false e h c =
      let (right, few) = c.more refl in
      let cs' =
        IsOpen-append r worker 0 cs x h
          (subst (λ n. IsChunkOf r worker n x) (omega arith) c.follows.0)
          (ground (arith, c.marked)) in
      (
        IsOpen-IsStreamed r worker 0 (cs ++ x ∷ []) cs',
        λ z. (e, cs', omega (arith, right, length-append cs (x ∷ [])), few),
      )

  -- Reading a chunk moves it from the channel to the stream.
  pub delivered-streamed :
      (k : Call T) (c : Chunk) (last : Bool)
      → k.results ≡ some (outcome_of c last)
      → delivered (streamed k c last) ≡ delivered k
  delivered-streamed k c last f =
      append-nil (k.sent ++ c ∷ []) ∙ ap (λ x. k.sent ++ chunks_of x) (sym f)

  pub sent-streamed :
      (k : Call T) (c : Chunk) (last : Bool)
      → k.results ≡ some (outcome_of c last)
      → delivered k ≡ k.sent ++ c ∷ []
  sent-streamed k c last f = ap (λ x. k.sent ++ chunks_of x) f

module _ {F T : Type 0} where
  -- What holds of call `i`.
  pub record IsFed (worker : Origin) (m : Shared F T) (i : ℕ) (k : Call T) : Type 0 where
    pub sent : IsStreamed k.request worker 0 k.sent
    pub complete : is_complete k.phase ≡ true → ends_final k.sent ≡ true
    pub marked : is_listening k.phase ≡ true → is_marked k.results ≡ true
    pub once : one_if (is_new k.phase) + places i m.queue + one_if (works_on i m.dispatcher) ≤ 1
    pub queued : All (λ j. j.call ≡ i → j.request ≡ k.request) m.queue
    pub before : is_new k.phase ≡ true → (k.results ≡ none) × (k.sent ≡ [])
    pub waiting : is_listening k.phase ≡ true → 0 < places i m.queue → delivered k ≡ []
    pub pending : is_listening k.phase ≡ true → IsStreamed k.request worker 0 (delivered k)
    pub going : is_listening k.phase ≡ true → IsGoing worker i k.request (delivered k) m.dispatcher
