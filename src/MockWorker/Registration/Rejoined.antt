-- ===== src/MockWorker/Registration/Rejoined.antt =====
-- The sessions of a worker whose router comes and goes.
use aether_serve.Base.{
  ℕ, suc, ◌+◌, ◌^◌, ◌≤◌, ◌<◌, ◌≡◌, refl, sym, subst, ◌∙◌, List, [], ◌∷◌, arith, All, ok, false,
}
use aether_serve.Base.Text.{GoString, is_empty}
use aether_serve.Float.{Float}
use aether_serve.Config.{WorkerConfig}
use aether_serve.Wire.{Timestamps}
use aether_serve.Gateway.Server.{Control, Reply, accepted, register_worker, heartbeat_worker}
use aether_serve.MockWorker.{Worker, next_state, new}
use aether_serve.MockWorker.Session.{
  Change, change, start, registration, heartbeat_of, Moment, Event, changes, ticks, others, Session,
  go_on, serve_foreign, heartbeats, register_and_heartbeat,
}
use aether_serve.MockWorker.Session.Ready.{
  IsFit, Brings, change-IsFit, change-version, change-config, next_state-IsFit, new-IsFit,
  next_state-version,
}
use aether_serve.MockWorker.Session.Accepted.{
  tick_count, IsTimely, IsOrderly, IsUnbroken, register-IsUnbroken,
}
use aether_serve.MockWorker.Registration.{
  Round, unreachable, connected, change_all, registration_loop,
}

-- The status versions that the turns may use up.
abbrev pub versions : {F T : Type 0} → List (Round F T) → ℕ
versions [] = 0
versions (unreachable xs ∷ rounds) = versions rounds
versions (connected c t events xs ∷ rounds) = suc (tick_count events) + versions rounds

abbrev pub IsSteadyRound : {F T : Type 0} → Timestamps T → GoString → Round F T → Type 0
IsSteadyRound ts id (unreachable xs) = All Brings xs
IsSteadyRound ts id (connected c t events xs) =
    IsTimely ts t × All (IsOrderly ts id) events × All Brings xs

module _ {F : Type 0} ⦃fl : Float F⦄ where
  -- A worker that has come from `w` with a version of at most `n`.
  pub record IsKept (w : Worker F) (n : ℕ) (w' : Worker F) : Type 0 where
    pub fit : IsFit w'
    pub config : w'.config ≡ w.config
    pub version : w'.state.status_version ≤ n

  go_on-IsKept :
      (w w' : Worker F) (n : ℕ) (out : Control F × Reply) (rest : Session F)
      → IsKept w n w'
      → IsKept w n rest.worker
      → IsKept w n (go_on w' out rest).worker
  go_on-IsKept w w' n (c, accepted) rest h k = k
  go_on-IsKept w w' n (c, Reply.failed_precondition) rest h k = h
  go_on-IsKept w w' n (c, Reply.invalid_argument e) rest h k = h
  go_on-IsKept w w' n (c, Reply.refused e) rest h k = h

  change-IsKept :
      (w w' : Worker F) (n : ℕ) (x : Change) → Brings x → IsKept w n w' → IsKept w n (change w' x)
  change-IsKept w w' n x b k = record {
    fit = change-IsFit w' x b k.fit;
    config = change-config w' x ∙ k.config;
    version = omega (arith, change-version w' x, k.version);
  }

  change_all-IsKept :
      (w w' : Worker F) (n : ℕ) (xs : List Change)
      → All Brings xs
      → IsKept w n w'
      → IsKept w n (change_all w' xs)
  unfolding change_all
  change_all-IsKept w w' n [] b k = k
  change_all-IsKept w w' n (x ∷ xs) b k =
      change_all-IsKept w (change w' x) n xs b.1 (change-IsKept w w' n x b.0 k)

  next_state-IsKept :
      (w w' : Worker F) (n : ℕ) (t : Moment)
      → suc w'.state.status_version ≤ n
      → n < 2 ^ 64
      → IsKept w n w'
      → IsKept w n (next_state w' t.observed).0
  unfolding next_state
  next_state-IsKept w w' n t h b k = record {
    fit = next_state-IsFit w' t.observed k.fit;
    config = k.config;
    version = omega (arith, h, (next_state-version w' t.observed (omega (arith, h, b))).1);
  }

module _ {F T : Type 0} ⦃fl : Float F⦄ (ts : Timestamps T) where
  heartbeats-IsKept :
      (w w' : Worker F) (n : ℕ) (c : Control F) (events : List (Event F T))
      → w'.state.status_version + tick_count events ≤ n
      → n < 2 ^ 64
      → All (IsOrderly ts w.config.id) events
      → IsKept w n w'
      → IsKept w n (heartbeats ts w' c events).worker
  unfolding heartbeats
  heartbeats-IsKept w w' n c [] h b o k = k
  heartbeats-IsKept w w' n c (changes x ∷ events) h b o k =
      heartbeats-IsKept w (change w' x) n c events (omega (arith, h, change-version w' x)) b o.1
        (change-IsKept w w' n x o.0 k)
  heartbeats-IsKept w w' n c (others x ∷ events) h b o k =
      heartbeats-IsKept w w' n (serve_foreign ts c x) events h b o.1 k
  heartbeats-IsKept w w' n c (ticks t ∷ events) h b o k =
      let next = next_state w' t.observed in
      let out = heartbeat_worker ts c t.read (heartbeat_of ts next.0 t.stamped next.1) in
      let k' = next_state-IsKept w w' n t (omega (arith, h)) b k in
      let v = next_state-version w' t.observed (omega (arith, h, b)) in
      go_on-IsKept w next.0 n out (heartbeats ts next.0 out.0 events) k'
        (heartbeats-IsKept w next.0 n out.0 events (omega (arith, h, v.1)) b o.1 k')

  register-IsKept :
      (w : Worker F) (n : ℕ) (c : Control F) (t : Moment) (events : List (Event F T))
      → w.state.status_version + suc (tick_count events) ≤ n
      → n < 2 ^ 64
      → All (IsOrderly ts w.config.id) events
      → IsFit w
      → IsKept w n (register_and_heartbeat ts w c t events).worker
  unfolding register_and_heartbeat
  register-IsKept w n c t events h b o v =
      let next = next_state w t.observed in
      let out = register_worker ts c t.read (registration ts next.0 t.stamped next.1) in
      let k : IsKept w n w = record { fit = v; config = refl; version = omega (arith, h) } in
      let k' = next_state-IsKept w w n t (omega (arith, h)) b k in
      let u = next_state-version w t.observed (omega (arith, h, b)) in
      go_on-IsKept w next.0 n out (heartbeats ts next.0 out.0 events) k'
        (heartbeats-IsKept w next.0 n out.0 events (omega (arith, h, u.1)) b o k')

  loop-IsUnbroken :
      (w : Worker F) (rounds : List (Round F T))
      → IsFit w
      → w.state.status_version + versions rounds < 2 ^ 64
      → All (IsSteadyRound ts w.config.id) rounds
      → All (λ s. IsUnbroken s w.config.id) (registration_loop ts w rounds).1
  unfolding registration_loop
  loop-IsUnbroken w [] v b o = tt
  loop-IsUnbroken w (unreachable xs ∷ rounds) v b o =
      let n = w.state.status_version in
      let k : IsKept w n w = record { fit = v; config = refl; version = omega arith } in
      let k' = change_all-IsKept w w n xs o.0 k in
      subst
        (λ (x : WorkerConfig F).
          All (λ s. IsUnbroken s x.id) (registration_loop ts (change_all w xs) rounds).1)
        k'.config
        (loop-IsUnbroken (change_all w xs) rounds k'.fit (omega (arith, b, k'.version))
          (subst (λ (x : WorkerConfig F). All (IsSteadyRound ts x.id) rounds) (sym k'.config) o.1))
  loop-IsUnbroken w (connected c t events xs ∷ rounds) v b ((timely, o, brings), later) =
      let n = w.state.status_version + suc (tick_count events) in
      let s = register_and_heartbeat ts w c t events in
      let k = register-IsKept w n c t events (omega arith) (omega (arith, b)) o v in
      let k' = change_all-IsKept w s.worker n xs brings k in
      (
        register-IsUnbroken ts w c t events v (omega (arith, b)) timely o,
        subst
            (λ (x : WorkerConfig F).
              All (λ s. IsUnbroken s x.id) (registration_loop ts (change_all s.worker xs) rounds).1)
            k'.config
            (loop-IsUnbroken (change_all s.worker xs) rounds k'.fit (omega (arith, b, k'.version)) (
              subst (λ (x : WorkerConfig F). All (IsSteadyRound ts x.id) rounds) (sym k'.config)
                later)),
      )

  -- A worker made of a validated configuration whose cache capacity is at most 2^64 - 2^32, that listens at an
  -- address, and whose router goes away and comes back any number of times, each time in any state, restarted or not:
  -- where the prefixes it caches are valid with 32-bit counts, its clock is within what a timestamp holds, its status
  -- versions stay below 2^64 and no other worker calls in its name, the router accepts the registration and every
  -- heartbeat of every session, and holds at its end the status version that the worker sent last.
  pub registration_loop-IsUnbroken :
      (config : WorkerConfig F) (w : Worker F) (listener : GoString) (rounds : List (Round F T))
      → new config ≡ ok w
      → is_empty listener ≡ false
      → config.cache_capacity_tokens + 2 ^ 32 ≤ 2 ^ 64
      → versions rounds < 2 ^ 64
      → All (IsSteadyRound ts w.config.id) rounds
      → All (λ s. IsUnbroken s w.config.id) (registration_loop ts (start w listener) rounds).1
  unfolding start
  registration_loop-IsUnbroken config w listener rounds e l room b o =
      let (v, zero) = new-IsFit config w listener e l room in
      loop-IsUnbroken (start w listener) rounds v (omega (arith, b, zero)) o
