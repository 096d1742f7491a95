-- ===== src/MockWorker/Registration.antt =====
-- internal/mockworker/worker.go: `registrationLoop`, which registers again after a session that an error has ended. What
-- each dial finds and how long its connection lasts are inputs.
pub mod Rejoined
use aether_serve.Base.{List, [], ◌∷◌}
use aether_serve.Float.{Float}
use aether_serve.Wire.{Timestamps}
use aether_serve.Gateway.Server.{Control}
use aether_serve.MockWorker.{Worker}
use aether_serve.MockWorker.Session.{Change, change, Moment, Event, Session, register_and_heartbeat}

-- One turn of the loop: no router is found, or one in some state, to which the session lasts for the given events; and
-- what the worker's other goroutines do during the wait of 200 ms.
pub data Round (F T : Type 0) : Type 0 where
  unreachable : List Change → Round F T
  connected : Control F → Moment → List (Event F T) → List Change → Round F T

module _ {F : Type 0} where
  unfoldable pub change_all : Worker F → List Change → Worker F
  change_all w [] = w
  change_all w (x ∷ xs) = change_all (change w x) xs

module _ {F T : Type 0} ⦃fl : Float F⦄ (ts : Timestamps T) where
  -- The worker after the turns, and its sessions.
  unfoldable pub registration_loop : Worker F → List (Round F T) → Worker F × List (Session F)
  registration_loop w [] = (w, [])
  registration_loop w (unreachable xs ∷ rounds) = registration_loop (change_all w xs) rounds
  registration_loop w (connected c t events xs ∷ rounds) =
      let s = register_and_heartbeat ts w c t events in
      let (w', later) = registration_loop (change_all s.worker xs) rounds in (w', s ∷ later)
