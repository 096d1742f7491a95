-- ===== src/Registry/Invariant.antt =====
-- What every reachable registry satisfies.
use aether_serve.Base.{
  ◌≡◌, refl, false, List, [], ◌∷◌, arith, Result, ok, All, Result-cases, Option-cases, inl, inr,
  if_both, not, ltb,
}
use aether_serve.Base.Text.{GoString}
use aether_serve.Base.Map.{lookup, insert, IsMap, insert-IsMap, All-insert, All-lookup}
use aether_serve.Float.{Float}
use aether_serve.Clock.{Time, Duration}
use aether_serve.Model.{WorkerState, Worker}
use aether_serve.Registry.{
  Registry, Error, new, validate_state, validate, register, beat, heartbeat,
}
use aether_serve.Registry.Valid.{StateIsValid, WorkerIsValid, validate_state_iff, validate_iff}

-- A call of the control plane.
pub data Call (F : Type 0) : Type 0 where
  registers : Time → Worker F → Call F
  heartbeats : Time → GoString → WorkerState F → Call F

module _ {F : Type 0} ⦃fl : Float F⦄ where
  -- A refused call leaves the registry as it returns it.
  unfoldable pub step : Registry F → Call F → Registry F
  step r (registers now worker) = (register r now worker).0
  step r (heartbeats now id state) = (heartbeat r now id state).0

  unfoldable pub run : Registry F → List (Call F) → Registry F
  run r [] = r
  run r (c ∷ cs) = run (step r c) cs

  -- An entry stands under its worker's identifier, is valid, and is stored as fresh.
  abbrev pub EntryIsValid : GoString × Worker F → Type 0
  EntryIsValid e = (e.1.id ≡ e.0) × WorkerIsValid e.1 × (e.1.stale ≡ false)

  pub record IsWellFormed (r : Registry F) : Type 0 where
    pub keys : IsMap r.workers
    pub entries : All EntryIsValid r.workers

  insert-IsWellFormed :
      (r : Registry F) (k : GoString) (w : Worker F)
      → EntryIsValid (k, w)
      → IsWellFormed r
      → IsWellFormed (record r { workers = insert k w r.workers })
  insert-IsWellFormed r k w h v = record {
    keys = insert-IsMap k w r.workers v.keys;
    entries = All-insert EntryIsValid k w r.workers v.entries h;
  }

  pub register-IsWellFormed :
      (r : Registry F) (now : Time) (w : Worker F)
      → IsWellFormed r
      → IsWellFormed (register r now w).0
  unfolding register
  register-IsWellFormed r now w v = elim (Result-cases (validate w)) [
    | inl (_, e) ↦
        rw (e, register)
          (insert-IsWellFormed r w.id _ (refl, ground (arith, (validate_iff w).0), refl) v)
    | inr (_, e) ↦ rw (e, register) v
  ]

  beat-IsWellFormed :
      (r : Registry F) (now : Time) (id : GoString) (s : WorkerState F) (w : Worker F)
      → EntryIsValid (id, w)
      → StateIsValid s
      → IsWellFormed r
      → IsWellFormed (beat r now id s w).0
  unfolding beat
  beat-IsWellFormed r now id s w old new v =
      if_both (λ (q : Registry F × Result Error (Unit {0})). IsWellFormed q.0)
        (not (ltb w.state.status_version s.status_version)) _ _ v
        (insert-IsWellFormed r id _ (old.0, ground arith, refl) v)

  pub heartbeat-IsWellFormed :
      (r : Registry F) (now : Time) (id : GoString) (s : WorkerState F)
      → IsWellFormed r
      → IsWellFormed (heartbeat r now id s).0
  unfolding heartbeat
  heartbeat-IsWellFormed r now id s v = elim (Result-cases (validate_state s)) [
    | inr (_, e) ↦ rw (e, heartbeat) v
    | inl (_, e) ↦ elim (Option-cases (lookup id r.workers)) [
      | inl q ↦ rw (e, q, heartbeat) v
      | inr (w, q) ↦
          rw (e, q, heartbeat)
            (beat-IsWellFormed r now id s w (All-lookup EntryIsValid id r.workers v.entries q)
              (ground (arith, (validate_state_iff s).0)) v)
    ]
  ]

  run-IsWellFormed :
      (r : Registry F) (calls : List (Call F)) → IsWellFormed r → IsWellFormed (run r calls)
  unfolding run step
  run-IsWellFormed r [] v = v
  run-IsWellFormed r (registers now w ∷ cs) v =
      run-IsWellFormed (register r now w).0 cs (register-IsWellFormed r now w v)
  run-IsWellFormed r (heartbeats now id s ∷ cs) v =
      run-IsWellFormed (heartbeat r now id s).0 cs (heartbeat-IsWellFormed r now id s v)

  -- After any registrations and heartbeats, accepted or refused, on a new registry, every stored
  -- worker stands under its own identifier, each identifier once, and passes `validate`.
  pub run-new_valid :
      (stale_after : Duration) {r : Registry F} (calls : List (Call F))
      → new stale_after ≡ ok r
      → IsWellFormed (run r calls)
  unfolding new
  run-new_valid stale_after {r} calls e = run-IsWellFormed r calls (start r e)
    where
      start : (r : Registry F) → new stale_after ≡ ok r → IsWellFormed r
      start r e = ground arith
