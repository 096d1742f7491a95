-- ===== src/Commands/Exits.antt =====
-- When the programs succeed, and what they leave open.
use aether_serve.Base.{
  ℕ, ◌≡◌, ◌↔◌, refl, ap, subst, Option, none, some, List, [], Result, ok, err, bind-ok,
  ok-injective, arith,
}
use aether_serve.Base.Text.{GoString}
use aether_serve.Float.{Float}
use aether_serve.Config
use aether_serve.Config.{
  RouterConfig, WorkerConfig, Files, load, load_router, load_worker, validate_worker,
}
use aether_serve.Gateway.Chat.{Server}
use aether_serve.Gateway.Lifecycle
use aether_serve.Gateway.Lifecycle.{
  Process, Endings, start, close, close_once, close_listener, keep,
}
use aether_serve.Gateway.Lifecycle.Closed.{idle, start-close}
use aether_serve.Gateway.Lifecycle.Opened.{load_router-valid}
use aether_serve.Config.Limits.{validated_builds}
use aether_serve.MockWorker
use aether_serve.Commands.{
  Host, exit_code, router_started, router_built, router_loaded, router_main, worker_built,
  worker_loaded, worker_main,
}

-- Nothing fails on the way.
abbrev pub Succeeds : {E A : Type 0} → Result E A → Type 0
Succeeds (ok a) = Unit {0}
Succeeds (err e) = ⊥

abbrev pub IsQuiet : Endings → Type 0
IsQuiet e = (e.shutdown ≡ none) × (e.stop ≡ none) × (e.active ≡ none) × (e.clients ≡ none)

-- The host lets the router listen and end.
abbrev pub IsKind : Host → Type 0
IsKind host = Succeeds host.http × Succeeds host.control × IsQuiet host.endings

keep-none_iff : (a b : Option GoString) → (keep a b ≡ none) ↔ ((a ≡ none) × (b ≡ none))
keep-none_iff none b = (λ e. (refl, e), λ h. h.1)
keep-none_iff (some x) b = (λ e. absurd (cc), λ h. absurd (cc))

exit_code_iff : (e : Option GoString) → (exit_code e ≡ 0) ↔ (e ≡ none)
exit_code_iff none = (λ e. refl, λ e. refl)
exit_code_iff (some x) = (λ e. absurd (omega (arith, e)), λ e. absurd (cc))

-- The end of the router, by the errors of its parts.
endings_iff :
    (e : Endings)
    → (exit_code (keep (keep (keep e.shutdown e.stop) e.active) e.clients) ≡ 0) ↔ IsQuiet e
endings_iff e =
    let code = exit_code_iff (keep (keep (keep e.shutdown e.stop) e.active) e.clients) in
    let last = keep-none_iff (keep (keep e.shutdown e.stop) e.active) e.clients in
    let third = keep-none_iff (keep e.shutdown e.stop) e.active in
    let second = keep-none_iff e.shutdown e.stop in
    (
      λ z.
          let (l, d) = last.0 (code.0 z) in
          let (t, c) = third.0 l in let (a, b) = second.0 t in (a, b, c, d),
      λ q. code.1 (last.1 (third.1 (second.1 (q.0, q.1), q.2), q.3)),
    )

-- What the router leaves of the listeners, and when its exit code is 0.
abbrev pub Exits : List GoString → Type 0 → Process × ℕ → Type 0
Exits listening Fine out = (out.0.listening ≡ listening) × ((out.1 ≡ 0) ↔ Fine)

failed :
    {Fine : Type 0} (listening : List GoString) (p : Process)
    → p.listening ≡ listening
    → (Fine → ⊥)
    → Exits listening Fine (p, 1)
failed listening p e n = (e, (λ z. absurd (omega (arith, z)), λ f. absurd (n f)))

started-Exits :
    (http control : Result GoString GoString) (e : Endings) (listening : List GoString)
    → let host : Host = record { http = http; control = control; endings = e } in
      Exits listening (IsKind host) (router_started host (start http control (idle listening)))
unfolding router_started start close close_once
started-Exits (err x) control e listening = failed listening (idle listening) refl (λ f. f.0)
started-Exits (ok a) (err x) e listening =
    failed listening (start (ok a) (err x) (idle listening)).0
      (ap (λ (p : Process). p.listening) ((start-close (ok a) (err x) listening e e).0 (λ q. cc)))
      (λ f. f.1)
started-Exits (ok a) (ok b) e listening =
    let q = endings_iff e in
    ((start-close (ok a) (ok b) listening e e).1, (λ z. (tt, tt, q.0 z), λ f. q.1 f.2))

module _ {F : Type 0} ⦃fl : Float F⦄ where
  loaded-Exits :
      (loaded : Result Config.Error (RouterConfig F)) (host : Host) (listening : List GoString)
      → ((c : RouterConfig F) → loaded ≡ ok c → (s : Server F) × (Lifecycle.new c ≡ ok s))
      → Exits listening (Succeeds loaded × IsKind host) (router_loaded host (idle listening) loaded)
  unfolding router_loaded router_built
  loaded-Exits (err x) host listening builds = failed listening (idle listening) refl (λ f. f.0)
  loaded-Exits (ok c) host listening builds =
      let (s, e) = builds c refl in
      let (l, i) = started-Exits host.http host.control host.endings listening in
      rw e (l, (λ z. (tt, i.0 z), λ f. i.1 f.1))

  load_router-builds :
      (files : Files (RouterConfig F)) (path : GoString) (c : RouterConfig F)
      → load_router files path ≡ ok c
      → (s : Server F) × (Lifecycle.new c ≡ ok s)
  unfolding Lifecycle.new
  load_router-builds files path c e =
      let valid = load_router-valid files path c e in
      let ((g, gq), (a, aq), (r, rq)) = validated_builds c valid in
      (
        record {
          config = c;
          registry = g;
          admission = record { controller = a; leases = [] };
          router = r;
        },
        rw (valid, gq, aq, rq) refl,
      )

  -- Whatever the loading of the configuration, the two calls that listen, and the four parts that `Close` ends return: when
  -- the router is over just those listeners are open that were open before it; and its exit code is 0 exactly where its
  -- configuration loads, the system lets it listen on both addresses, and each of the four parts (the shutdown of the HTTP
  -- server, the stop of the control server, the wait for active requests, the close of the clients) ends without an
  -- error. An error that ends one of the two `Serve` loops is not among these: `Start` only logs it.
  pub router_main-Exits :
      (files : Files (RouterConfig F)) (path : GoString) (host : Host) (listening : List GoString)
      → Exits listening
          (Succeeds (load_router files path) × IsKind host)
          (router_main files path host (idle listening))
  unfolding router_main
  router_main-Exits files path host listening =
      loaded-Exits (load_router files path) host listening (load_router-builds files path)

  worker_loaded-exits :
      (loaded : Result Config.Error (WorkerConfig F)) (listener : Result GoString GoString)
      → ((c : WorkerConfig F) → loaded ≡ ok c → validate_worker c ≡ ok tt)
      → (worker_loaded listener loaded ≡ 0) ↔ (Succeeds loaded × Succeeds listener)
  unfolding worker_loaded worker_built MockWorker.new
  worker_loaded-exits (err x) listener valid = (λ z. absurd (omega (arith, z)), λ f. absurd f.0)
  worker_loaded-exits (ok c) (err x) valid =
      rw (valid c refl) (λ z. absurd (omega (arith, z)), λ f. absurd f.1)
  worker_loaded-exits (ok c) (ok a) valid = rw (valid c refl) (λ z. (tt, tt), λ f. refl)

  load_worker-valid :
      (files : Files (WorkerConfig F)) (path : GoString) (c : WorkerConfig F)
      → load_worker files path ≡ ok c
      → validate_worker c ≡ ok tt
  unfolding load_worker
  load_worker-valid files path c e =
      let (a, _, e₁) = bind-ok (load files path) _ e in
      let (_, q, e₂) = bind-ok (validate_worker a) _ e₁ in
      subst (λ (c : WorkerConfig F). validate_worker c ≡ ok tt) (ok-injective e₂) q

  -- The mock worker's exit code is 0 exactly where its configuration loads and it can listen.
  pub worker_main_iff :
      (files : Files (WorkerConfig F)) (path : GoString) (listener : Result GoString GoString)
      → (worker_main files path listener ≡ 0)
        ↔ (Succeeds (load_worker files path) × Succeeds listener)
  unfolding worker_main
  worker_main_iff files path listener =
      worker_loaded-exits (load_worker files path) listener (load_worker-valid files path)
