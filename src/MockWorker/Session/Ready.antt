-- ===== src/MockWorker/Session/Ready.antt =====
-- What keeps the messages of a worker acceptable.
use aether_serve.Base.{
  ℕ, suc, ◌+◌, ◌^◌, ◌≤◌, ◌<◌, ◌≡◌, refl, subst, false, List, [], ◌∷◌, arith, All, ok, bind-ok,
  ok-injective,
}
use aether_serve.Base.Int.{pos, ltb_ℤ}
use aether_serve.Base.Text.{GoString, is_empty}
use aether_serve.Float.{Float, zero_float}
use aether_serve.Clock.{Time}
use aether_serve.Model.{PrefixFingerprint, WorkerStatus, healthy}
use aether_serve.Registry
use aether_serve.Registry.{Registry}
use aether_serve.Registry.Valid.{PrefixIsValid, StateIsValid}
use aether_serve.Config.{WorkerConfig, validate_worker}
use aether_serve.MockWorker.{
  Worker, Held, held, add_prefixes, next_state, new, add_waiting, remove_waiting, move_to_running,
  finish_running,
}
use aether_serve.MockWorker.Cache.{IsSound, add_prefixes-IsSound}
use aether_serve.MockWorker.Session.{
  start, Change, adds_waiting, removes_waiting, moves_to_running, finishes_running, adds_prefixes,
  change,
}
use aether_serve.MockWorker.Session.Entries.{Entries, add_all-Entries, cached-valid}

module _ {F : Type 0} ⦃fl : Float F⦄ where
  -- What a worker needs for its messages to be accepted.
  pub record Fit (config : WorkerConfig F) (place : GoString) (s : WorkerStatus) (capacity : ℕ)
      (rate₁ rate₂ : F) (n : ℕ) (h : Held) : Type 0 where
    pub identity : is_empty config.id ≡ false
    pub address : is_empty place ≡ false
    pub model : is_empty config.model ≡ false
    pub status : s ≡ healthy
    pub limit : ltb_ℤ config.cache_prefix_limit (pos 0) ≡ false
    pub positive : 0 < capacity
    pub room : capacity + 2 ^ 32 ≤ 2 ^ 64
    pub prefill : fl.le rate₁ zero_float ≡ false
    pub decode : fl.le rate₂ zero_float ≡ false
    pub quantum : 0 < n
    pub sound : IsSound config.cache_prefix_limit capacity h
    pub entries : Entries h.cache

  abbrev pub IsFit : Worker F → Type 0
  IsFit w =
      Fit w.config w.data_address w.state.status w.state.kv_usage.capacity_tokens
        w.state.prefill_tokens_per_second w.state.decode_tokens_per_second
        w.state.decode_scheduling_quantum_tokens (held w)

-- A prefix that a router sends: valid, and its count has 32 bits.
abbrev pub IsSendable : PrefixFingerprint → Type 0
IsSendable p = PrefixIsValid p × (p.token_count < 2 ^ 32)

-- The prefixes that a change brings are sendable.
abbrev pub Brings : Change → Type 0
Brings (adds_prefixes ps) = All IsSendable ps
Brings _ = Unit {0}

split_valid :
    (ps : List PrefixFingerprint)
    → All IsSendable ps
    → All PrefixIsValid ps × All (λ p. p.token_count < 2 ^ 32) ps
split_valid [] h = (tt, tt)
split_valid (p ∷ ps) h = let (a, b) = split_valid ps h.1 in ((h.0.0, a), (h.0.1, b))

module _ {F : Type 0} ⦃fl : Float F⦄ where
  pub change-IsFit : (w : Worker F) (x : Change) → Brings x → IsFit w → IsFit (change w x)
  unfolding change add_waiting remove_waiting move_to_running finish_running add_prefixes
  change-IsFit w (adds_waiting work) b v = v
  change-IsFit w (removes_waiting work) b v = v
  change-IsFit w (moves_to_running work) b v = v
  change-IsFit w (finishes_running work) b v = v
  change-IsFit w (adds_prefixes ps) b v = record {
    identity = v.identity;
    address = v.address;
    model = v.model;
    status = v.status;
    limit = v.limit;
    positive = v.positive;
    room = v.room;
    prefill = v.prefill;
    decode = v.decode;
    quantum = v.quantum;
    sound = add_prefixes-IsSound w ps v.limit v.room (split_valid ps b).1 v.sound;
    entries = add_all-Entries _ _ (held w) ps (split_valid ps b).0 v.entries;
  }

  pub change-version :
      (w : Worker F) (x : Change) → (change w x).state.status_version ≡ w.state.status_version
  unfolding change add_waiting remove_waiting move_to_running finish_running add_prefixes
  change-version w (adds_waiting work) = refl
  change-version w (removes_waiting work) = refl
  change-version w (moves_to_running work) = refl
  change-version w (finishes_running work) = refl
  change-version w (adds_prefixes ps) = refl

  pub next_state-IsFit : (w : Worker F) (now : Time) → IsFit w → IsFit (next_state w now).0
  unfolding next_state
  next_state-IsFit w now v = v

  pub next_state-version :
      (w : Worker F) (now : Time)
      → w.state.status_version + 1 < 2 ^ 64
      → ((next_state w now).1.status_version ≡ suc w.state.status_version)
        × ((next_state w now).0.state.status_version ≡ suc w.state.status_version)
  unfolding next_state Registry.clone_state
  next_state-version w now b = (omega (arith, b), omega (arith, b))

  pub next_state-IsValid :
      (w : Worker F) (now : Time)
      → IsFit w
      → w.state.status_version + 1 < 2 ^ 64
      → StateIsValid (next_state w now).1
  unfolding next_state Registry.clone_state
  next_state-IsValid w now v b = record {
    version = omega (arith, b);
    known = rw v.status tt;
    capacity = v.positive;
    usage = v.sound.1.1;
    prefill = v.prefill;
    decode = v.decode;
    quantum = v.quantum;
    prefixes = cached-valid w.cache w.cache_order v.entries v.sound.0.cached;
  }

  pub change-config : (w : Worker F) (x : Change) → (change w x).config ≡ w.config
  unfolding change add_waiting remove_waiting move_to_running finish_running add_prefixes
  change-config w (adds_waiting work) = refl
  change-config w (removes_waiting work) = refl
  change-config w (moves_to_running work) = refl
  change-config w (finishes_running work) = refl
  change-config w (adds_prefixes ps) = refl

  -- What the validation says of the fields that the messages carry.
  validated :
      (config : WorkerConfig F)
      → validate_worker config ≡ ok tt
      → (is_empty config.id ≡ false)
        × (is_empty config.model ≡ false)
        × (ltb_ℤ config.cache_prefix_limit (pos 0) ≡ false)
        × (0 < config.cache_capacity_tokens)
        × (fl.le config.prefill_tokens_per_second zero_float ≡ false)
        × (fl.le config.decode_tokens_per_second zero_float ≡ false)
        × (0 < config.decode_scheduling_quantum_tokens)
  unfolding validate_worker
  validated config e = ground arith

  pub new-IsFit :
      (config : WorkerConfig F) (w : Worker F) (listener : GoString)
      → new config ≡ ok w
      → is_empty listener ≡ false
      → config.cache_capacity_tokens + 2 ^ 32 ≤ 2 ^ 64
      → IsFit (start w listener) × (w.state.status_version ≡ 0)
  unfolding new start
  new-IsFit config w listener e l room =
      let (_, q, made) = bind-ok (validate_worker config) _ e in
      let (id, model, limit, capacity, prefill, decode, quantum) = validated config q in
      subst (λ (w : Worker F). IsFit (start w listener) × (w.state.status_version ≡ 0))
        (ok-injective made)
        (
          record {
            identity = id;
            address = ground (arith, l);
            model = model;
            status = refl;
            limit = limit;
            positive = capacity;
            room = room;
            prefill = prefill;
            decode = decode;
            quantum = quantum;
            sound = (record { distinct = tt; cached = tt; tokens = refl }, (limit, omega arith));
            entries = tt;
          },
          refl,
        )
