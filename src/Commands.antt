-- ===== src/Commands.antt =====
-- cmd/router/main.go and cmd/mock-worker/main.go: the two programs, from their configuration's path to their exit code. The
-- flags and the signals are left out: a program that has started is stopped.
pub mod Exits
use aether_serve.Base.{ℕ, Option, none, some, Result, ok, err}
use aether_serve.Base.Text.{GoString}
use aether_serve.Float.{Float}
use aether_serve.Config
use aether_serve.Config.{RouterConfig, WorkerConfig, Files, load_router, load_worker}
use aether_serve.Gateway.Chat.{Server}
use aether_serve.Gateway.Lifecycle
use aether_serve.Gateway.Lifecycle.{Process, Endings, close}
use aether_serve.MockWorker
use aether_serve.MockWorker.{Worker}

-- What the system gives the router: its two listeners, and how its parts end.
pub record Host : Type 0 where
  pub http : Result GoString GoString
  pub control : Result GoString GoString
  pub endings : Endings

-- The exit code after an error, if any: `fatal` is `os.Exit(1)`.
abbrev pub exit_code : Option GoString → ℕ
exit_code none = 0
exit_code (some e) = 1

-- What follows `server.Start`.
unfoldable pub router_started : Host → Process × Option GoString → Process × ℕ
router_started host (p, some e) = (p, exit_code (some e))
router_started host (p, none) = let (ended, e) = close p host.endings in (ended, exit_code e)

module _ {F : Type 0} where
  -- What follows `gateway.New`.
  unfoldable pub router_built : Host → Process → Result Lifecycle.Error (Server F) → Process × ℕ
  router_built host p (err e) = (p, 1)
  router_built host p (ok server) = router_started host (Lifecycle.start host.http host.control p)

module _ {F : Type 0} ⦃fl : Float F⦄ where
  -- What follows `config.LoadRouter`.
  unfoldable pub router_loaded : Host → Process → Result Config.Error (RouterConfig F) → Process × ℕ
  router_loaded host p (err e) = (p, 1)
  router_loaded host p (ok config) = router_built host p (Lifecycle.new config)

  -- `main` of the router: the process after it, and its exit code.
  unfoldable pub router_main : Files (RouterConfig F) → GoString → Host → Process → Process × ℕ
  router_main files path host p = router_loaded host p (load_router files path)

-- What follows `mockworker.New`: `Run`, which fails where the worker cannot listen.
unfoldable pub worker_built :
    {F : Type 0} → Result GoString GoString → Result Config.Error (Worker F) → ℕ
worker_built listener (err e) = 1
worker_built (err e) (ok w) = exit_code (some e)
worker_built (ok address) (ok w) = exit_code none

module _ {F : Type 0} ⦃fl : Float F⦄ where
  -- What follows `config.LoadWorker`.
  unfoldable pub worker_loaded : Result GoString GoString → Result Config.Error (WorkerConfig F) → ℕ
  worker_loaded listener (err e) = 1
  worker_loaded listener (ok config) = worker_built listener (MockWorker.new config)

  -- `main` of the mock worker: its exit code.
  unfoldable pub worker_main : Files (WorkerConfig F) → GoString → Result GoString GoString → ℕ
  worker_main files path listener = worker_loaded listener (load_worker files path)
