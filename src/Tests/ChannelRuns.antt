-- ===== src/Tests/ChannelRuns.antt =====
-- An attempt's channel.
use aether_serve.Base.{ℕ, ◌≤◌, ◌≡◌, refl, ◌++◌, length, arith}
use aether_serve.Base.Text.{str}
use aether_serve.Gateway.Stream.{end_of_stream, receive}
use aether_serve.Gateway.Stream.Order.{IsOrdered}
use aether_serve.Gateway.Channel.{Attempt, Reach, start, later, receive_next, put, get}
use aether_serve.Gateway.Channel.Refines.{channel_refines}
use aether_serve.Tests.Fixtures.{request}
use aether_serve.Tests.GatewayRuns.{plain}

-- The stream ends at once, and the handler has read that.
abbrev ended : (s : Attempt ℕ) × Reach plain request (str "w") 1 s
ended = (
  _,
  later (later (later start (receive_next 5 end_of_stream refl)) (put refl (omega arith)))
      (get refl),
)

channel_refines_example :
    let s = ended.0 in
    (s.read ++ s.buffer ≡ receive plain request (str "w") 0 s.rounds)
    × IsOrdered request (str "w") 0 (s.read ++ s.buffer)
    × (length s.buffer ≤ 1)
channel_refines_example = channel_refines plain request (str "w") ended.1
