-- ===== src/Gateway/Channel/Refines.antt =====
-- The channel against the loop that fills it.
use aether_serve.Base.{
  ℕ, ◌≤◌, ◌≡◌, refl, ap, subst, sym, ◌∙◌, Bool-cases, inl, inr, if◌then◌else◌, List, [], ◌∷◌, ◌++◌,
  length, length-append, append-nil, append_assoc, ok, err, add_u32, arith, Result,
}
use aether_serve.Base.Text.{GoString}
use aether_serve.Clock.{Time}
use aether_serve.Model.{Request, Chunk}
use aether_serve.Wire.{Timestamps}
use aether_serve.Gateway.{Fault}
use aether_serve.Gateway.Stream.{
  Event, chunk, failed, Received, message, end_of_stream, broken, Delivery, delivered, context_done,
  timed_out, Round, accept, turn, receive, deliver_attempt,
}
use aether_serve.Gateway.Stream.Order.{IsOrdered, receive-IsOrdered}
use aether_serve.Gateway.Channel.{
  Receiver, receives, delivers, returned, Attempt, goes_on, round, event_of, after_delivery, Step,
  receive_next, put, give_up, slow_client, get, cancel, Reach, start, later,
}

module _ {T : Type 0} (ts : Timestamps T) (request : Request) (worker_id : GoString) where
  outcome-delivered :
      (d : Delivery) (more : List Event) (r : Result Fault Chunk)
      → (elim r [
        | err f ↦ deliver_attempt d (failed f) []
        | ok c ↦ deliver_attempt d (chunk c) (if c.final then [] else more)
      ])
        ≡ deliver_attempt d
            (elim r [ err f ↦ failed f | ok c ↦ chunk c ])
            (if goes_on (elim r [ err f ↦ failed f | ok c ↦ chunk c ]) then more else [])
  outcome-delivered d more (err f) = refl
  outcome-delivered d more (ok c) = elim (Bool-cases c.final) [
    | inl e ↦ rw e refl
    | inr e ↦ rw e refl
  ]

  -- One turn of the loop, by its event.
  turn_lem :
      (n : ℕ) (now : Time) (d : Delivery) (more : List Event) (x : Received T)
      → turn ts request worker_id n now d more x
        ≡ deliver_attempt d
            (event_of ts request worker_id n now x)
            (if goes_on (event_of ts request worker_id n now x) then more else [])
  unfolding turn
  turn_lem n now d more end_of_stream = refl
  turn_lem n now d more (broken e) = refl
  turn_lem n now d more (message wire) =
      outcome-delivered d more (accept ts request worker_id n now wire)

  -- What the loop comes to from where the receiver stands, over the rounds to come.
  abbrev pub rest_of : Receiver T → List (Round T) → List Event
  rest_of (receives n) rs = receive ts request worker_id n rs
  rest_of (delivers n now x) rs = receive ts request worker_id n rs
  rest_of returned rs = []

  rest-nil : (r : Receiver T) → rest_of r [] ≡ []
  unfolding receive
  rest-nil (receives n) = refl
  rest-nil (delivers n now x) = refl
  rest-nil returned = refl

  -- What is read and what the channel holds is what the loop has delivered.
  pub record IsFaithful (capacity : ℕ) (s : Attempt T) : Type 0 where
    pub loop :
        (rs : List (Round T))
        → receive ts request worker_id 0 (s.rounds ++ rs)
          ≡ (s.read ++ s.buffer) ++ rest_of s.receiver rs
    pub bounded : length s.buffer ≤ capacity

  next_round :
      (s : Attempt T) (n : ℕ) (now : Time) (x : Received T) (d : Delivery)
      → s.receiver ≡ delivers n now x
      → ((rs : List (Round T))
          → receive ts request worker_id 0 (s.rounds ++ rs)
            ≡ (s.read ++ s.buffer) ++ rest_of s.receiver rs)
      → (rs : List (Round T))
      → receive ts request worker_id 0 ((s.rounds ++ round now x d ∷ []) ++ rs)
        ≡ (s.read ++ s.buffer)
          ++ deliver_attempt d (event_of ts request worker_id n now x) (
              if goes_on (event_of ts request worker_id n now x)
              then receive ts request worker_id (add_u32 n 1) rs
              else [])
  unfolding receive
  next_round s n now x d e h rs =
      let r : Round T = round now x d in
      ap (receive ts request worker_id 0) (append_assoc s.rounds (r ∷ []) rs)
      ∙ h (r ∷ rs)
      ∙ ap (λ q. (s.read ++ s.buffer) ++ rest_of q (r ∷ rs)) e
      ∙ ap (λ es. (s.read ++ s.buffer) ++ es)
          (turn_lem n now d (receive ts request worker_id (add_u32 n 1) rs) x)

  after-rest :
      (n : ℕ) (e : Event) (rs : List (Round T))
      → rest_of (after_delivery ts request worker_id n e) rs
        ≡ (if goes_on e then receive ts request worker_id (add_u32 n 1) rs else [])
  after-rest n (failed f) rs = refl
  after-rest n (chunk c) rs = elim (Bool-cases c.final) [ inl e ↦ rw e refl | inr e ↦ rw e refl ]

  Step-IsFaithful :
      {capacity : ℕ} {s t : Attempt T}
      → Step ts request worker_id capacity s t
      → IsFaithful capacity s
      → IsFaithful capacity t
  Step-IsFaithful {s = s} (receive_next {n = n} now x e) v = record {
    loop = λ rs.
        subst
          (λ r.
            receive ts request worker_id 0 (s.rounds ++ rs) ≡ (s.read ++ s.buffer) ++ rest_of r rs)
          e (v.loop rs);
    bounded = v.bounded;
  }
  Step-IsFaithful {s = s} (put {n = n} {now = now} {x = x} e h) v = record {
    loop = λ rs.
        let a = event_of ts request worker_id n now x in
        let more = rest_of (after_delivery ts request worker_id n a) rs in
        next_round s n now x delivered e v.loop rs
        ∙ ap (λ es. (s.read ++ s.buffer) ++ a ∷ es) (sym (after-rest n a rs))
        ∙ sym (append_assoc (s.read ++ s.buffer) (a ∷ []) more)
        ∙ ap (λ es. es ++ more) (append_assoc s.read s.buffer (a ∷ []));
    bounded = omega (arith, h, length-append s.buffer (event_of ts request worker_id n now x ∷ []));
  }
  Step-IsFaithful {s = s} (give_up {n = n} {now = now} {x = x} e c) v = record {
    loop = next_round s n now x context_done e v.loop;
    bounded = v.bounded;
  }
  Step-IsFaithful {s = s} (slow_client {n = n} {now = now} {x = x} e) v = record {
    loop = next_round s n now x timed_out e v.loop;
    bounded = v.bounded;
  }
  Step-IsFaithful {s = s} (get {e = a} {es = es} e) v = record {
    loop = λ rs.
        v.loop rs
        ∙ ap (λ b. b ++ rest_of s.receiver rs)
            (ap (λ b. s.read ++ b) e ∙ sym (append_assoc s.read (a ∷ []) es));
    bounded = ground (arith, v.bounded, e);
  }
  Step-IsFaithful cancel v = record { loop = v.loop; bounded = v.bounded }

  Reach-IsFaithful :
      {capacity : ℕ} {s : Attempt T} → Reach ts request worker_id capacity s → IsFaithful capacity s
  Reach-IsFaithful start = record { loop = λ rs. refl; bounded = omega arith }
  Reach-IsFaithful (later r st) = Step-IsFaithful st (Reach-IsFaithful r)

  -- However the receiver of an attempt, the handler and a cancellation interleave, the events that the handler has read
  -- and those that the channel holds, in this order, are what the loop of the receiver delivers over its turns so far:
  -- none is lost, repeated or reordered, they are ordered as `receive` orders them, and the channel never holds more
  -- than its capacity.
  pub channel_refines :
      {capacity : ℕ} {s : Attempt T}
      → Reach ts request worker_id capacity s
      → (s.read ++ s.buffer ≡ receive ts request worker_id 0 s.rounds)
        × IsOrdered request worker_id 0 (s.read ++ s.buffer)
        × (length s.buffer ≤ capacity)
  channel_refines {s = s} r =
      let v = Reach-IsFaithful r in
      let same : s.read ++ s.buffer ≡ receive ts request worker_id 0 s.rounds = sym (
        ap (receive ts request worker_id 0) (sym (append-nil s.rounds))
        ∙ v.loop []
        ∙ ap (λ es. (s.read ++ s.buffer) ++ es) (rest-nil s.receiver)
        ∙ append-nil (s.read ++ s.buffer)) in
      (
        same,
        subst (IsOrdered request worker_id 0) (sym same)
            (receive-IsOrdered ts request worker_id 0 s.rounds),
        v.bounded,
      )
