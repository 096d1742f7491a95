-- ===== src/Gateway/Lifecycle/Closed.antt =====
-- What `Close` leaves of what `Start` made.
use aether_serve.Base.{◌≡◌, ◌≢◌, refl, true, false, none, List, Result, ok, err}
use aether_serve.Base.Text.{GoString, str_eq_refl}
use aether_serve.Gateway.Lifecycle.{Process, Endings, close_listener, start, close_once, close}

-- A process before `Start`.
abbrev pub idle : List GoString → Process
idle listening = record {
  http_listener = none;
  control_listener = none;
  closed = false;
  ready = false;
  cancelled = false;
  listening = listening;
}

-- Whatever `Start` meets: if it fails, no listener that it opened stays open; after `Close`, which comes next with any
-- errors, just the listeners are open that were open before, the server is cancelled and not ready; and a second
-- `Close` changes nothing and returns no error.
pub start-close :
    (http control : Result GoString GoString) (listening : List GoString) (e e' : Endings)
    → let started = start http control (idle listening) in
      let ended = close started.0 e in
      (started.1 ≢ none → started.0 ≡ idle listening)
      × (ended.0.listening ≡ listening)
      × (ended.0.ready ≡ false)
      × (ended.0.cancelled ≡ true)
      × (close ended.0 e' ≡ (ended.0, none))
unfolding start close close_once close_listener
start-close (err x) control listening e e' = (λ n. refl, refl, refl, refl, refl)
start-close (ok a) (err x) listening e e' = rw (str_eq_refl a) (λ n. refl, refl, refl, refl, refl)
start-close (ok a) (ok b) listening e e' =
    rw (str_eq_refl a, str_eq_refl b) (λ n. absurd (n refl), refl, refl, refl, refl)
