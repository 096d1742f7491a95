-- ===== src/MockWorker/Session/Accepted.antt =====
-- The router accepts what a worker sends, over a whole session.
use aether_serve.Base.{
  ℕ, suc, ◌+◌, ◌^◌, ◌≤◌, ◌<◌, ◌≡◌, refl, sym, subst, false, none, List, [], ◌∷◌, arith, All, ok,
}
use aether_serve.Base.Text.{GoString, is_empty, str_eq}
use aether_serve.Float.{Float}
use aether_serve.Config.{WorkerConfig}
use aether_serve.Wire.{Timestamps}
use aether_serve.Protocol.RoundTrip.{IsCarried}
use aether_serve.Gateway.Server.{Control, accepted, register_worker, heartbeat_worker}
use aether_serve.MockWorker.{Worker, next_state, new}
use aether_serve.MockWorker.Session.{
  start, registration, heartbeat_of, change, Moment, Event, changes, ticks, others, caller,
  serve_foreign, Session, go_on, heartbeats, register_and_heartbeat,
}
use aether_serve.MockWorker.Session.Ready.{
  IsFit, Brings, change-IsFit, change-version, change-config, next_state-IsFit, new-IsFit,
  next_state-version,
}
use aether_serve.MockWorker.Session.Others.{serve_foreign-IsKnownAt}
use aether_serve.MockWorker.Session.Calls.{
  IsKnownAt, register_worker-accepted, heartbeat_worker-accepted,
}

-- The ticks of a session.
abbrev pub tick_count : {F T : Type 0} → List (Event F T) → ℕ
tick_count [] = 0
tick_count (changes x ∷ events) = tick_count events
tick_count (ticks t ∷ events) = suc (tick_count events)
tick_count (others x ∷ events) = tick_count events

abbrev pub IsTimely : {T : Type 0} → Timestamps T → Moment → Type 0
IsTimely ts t = IsCarried ts t.stamped × IsCarried ts t.observed

-- The changes bring sendable prefixes, the ticks are at times that a timestamp holds, and the calls of others are not
-- in this worker's name.
abbrev pub IsOrderly : {F T : Type 0} → Timestamps T → GoString → Event F T → Type 0
IsOrderly ts id (changes x) = Brings x
IsOrderly ts id (ticks t) = IsTimely ts t
IsOrderly ts id (others x) = str_eq (caller x) id ≡ false

module _ {F : Type 0} where
  -- A session that only its context ends, with the router up to date.
  abbrev pub IsUnbroken : Session F → GoString → Type 0
  IsUnbroken s id = (s.ended_by ≡ none) × IsKnownAt s.control id s.worker.state.status_version

  go_on-accepted :
      (w : Worker F) (out : Control F × _) (rest : Session F)
      → out.1 ≡ accepted
      → go_on w out rest ≡ rest
  go_on-accepted w (c, r) rest e = rw e refl

module _ {F T : Type 0} ⦃fl : Float F⦄ (ts : Timestamps T) where
  heartbeats-IsUnbroken :
      (w : Worker F) (c : Control F) (events : List (Event F T))
      → IsFit w
      → w.state.status_version + tick_count events < 2 ^ 64
      → IsKnownAt c w.config.id w.state.status_version
      → All (IsOrderly ts w.config.id) events
      → IsUnbroken (heartbeats ts w c events) w.config.id
  unfolding heartbeats next_state
  heartbeats-IsUnbroken w c [] v b known o = (refl, known)
  heartbeats-IsUnbroken w c (changes x ∷ events) v b known o =
      let keep = change-version w x in
      let same = change-config w x in
      subst (λ (k : WorkerConfig F). IsUnbroken (heartbeats ts (change w x) c events) k.id) same
        (heartbeats-IsUnbroken (change w x) c events (change-IsFit w x o.0 v)
          (omega (arith, b, keep))
          (subst (λ (k : WorkerConfig F). IsKnownAt c k.id (change w x).state.status_version)
            (sym same) (subst (λ n. IsKnownAt c w.config.id n) (sym keep) known))
          (subst (λ (k : WorkerConfig F). All (IsOrderly ts k.id) events) (sym same) o.1))
  heartbeats-IsUnbroken w c (others x ∷ events) v b known o =
      heartbeats-IsUnbroken w (serve_foreign ts c x) events v b
        (serve_foreign-IsKnownAt ts c x w.config.id w.state.status_version o.0 known) o.1
  heartbeats-IsUnbroken w c (ticks t ∷ events) v b known o =
      let (w', state) = next_state w t.observed in
      let out = heartbeat_worker ts c t.read (heartbeat_of ts w' t.stamped state) in
      let (a, k) = heartbeat_worker-accepted ts c t w v (omega (arith, b)) o.0.0 o.0.1 known in
      subst (λ (s : Session F). IsUnbroken s w.config.id)
        (sym (go_on-accepted w' out (heartbeats ts w' out.0 events) a))
        (heartbeats-IsUnbroken w' out.0 events (next_state-IsFit w t.observed v)
          (omega (arith, b, (next_state-version w t.observed (omega (arith, b))).1)) k o.1)

  pub register-IsUnbroken :
      (w : Worker F) (c : Control F) (t : Moment) (events : List (Event F T))
      → IsFit w
      → w.state.status_version + suc (tick_count events) < 2 ^ 64
      → IsTimely ts t
      → All (IsOrderly ts w.config.id) events
      → IsUnbroken (register_and_heartbeat ts w c t events) w.config.id
  unfolding register_and_heartbeat next_state
  register-IsUnbroken w c t events v b timely o =
      let (w', state) = next_state w t.observed in
      let out = register_worker ts c t.read (registration ts w' t.stamped state) in
      let (a, k) = register_worker-accepted ts c t w v (omega (arith, b)) timely.0 timely.1 in
      subst (λ (s : Session F). IsUnbroken s w.config.id)
        (sym (go_on-accepted w' out (heartbeats ts w' out.0 events) a))
        (heartbeats-IsUnbroken w' out.0 events (next_state-IsFit w t.observed v)
          (omega (arith, b, (next_state-version w t.observed (omega (arith, b))).1)) k o)

  -- A worker made of a validated configuration whose cache capacity is at most 2^64 - 2^32, that listens at an
  -- address, against a router in any state: where the prefixes it caches are valid with 32-bit counts, its clock is
  -- within what a timestamp holds, there are fewer than 2^64 - 1 ticks and no other worker calls in its name, whatever
  -- its goroutines do and other workers send in the meantime, the router accepts the registration and every heartbeat,
  -- and holds the status version that the worker sent last.
  register_and_heartbeat-IsUnbroken :
      (config : WorkerConfig F) (w : Worker F) (listener : GoString) (c : Control F) (t : Moment)
      (events : List (Event F T))
      → new config ≡ ok w
      → is_empty listener ≡ false
      → config.cache_capacity_tokens + 2 ^ 32 ≤ 2 ^ 64
      → suc (tick_count events) < 2 ^ 64
      → IsTimely ts t
      → All (IsOrderly ts w.config.id) events
      → IsUnbroken (register_and_heartbeat ts (start w listener) c t events) w.config.id
  unfolding start
  register_and_heartbeat-IsUnbroken config w listener c t events e l room b timely o =
      let w₀ = start w listener in
      let (v, zero) = new-IsFit config w listener e l room in
      register-IsUnbroken w₀ c t events v (omega (arith, b, zero)) timely o
