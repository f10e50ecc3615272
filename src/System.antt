-- ===== src/System.antt =====
-- app/server/server.go, NewAppServer: what the transport and the clock bring to the parts that it
-- wires together, as a run of steps.
pub mod Sessions
pub mod Invariant
pub mod Pipeline
pub mod Live
pub mod Connection
pub mod Broadcast
pub mod Delivery
pub mod Reconnect
pub mod Play
pub mod Debut
pub mod Mining
pub mod Rounds
pub mod Alike
pub mod Handlers
pub mod Order
pub mod View
pub mod Hasty
pub mod Missed
pub mod Durable
pub mod Lock
pub mod Deadlock
pub mod Between
use kupool.Common.{Text, Bytes, Time, Duration, Option, List, [], ◌∷◌}
use kupool.Frame.{Frame}
use kupool.Protocol.{Codec}
use kupool.State.{StateStore, World}
use kupool.Coordinator.{Draw, new_coordinator, run, restore}
use kupool.Listener.{receive, disconnect}
use kupool.Acceptor.{accept}

-- A new connection with the frame that it sends and the random bytes for its name, a payload on a
-- channel with the two readings of the clock, the end of a channel, a tick of the loop.
pub data Input : Type 0 where
  arrived : Option Frame → Option Bytes → Input
  received : Text → Bytes → Time → Time → Input
  gone : Text → Input
  ticked : Draw → Input

module _ {S : Type 0} (api : StateStore S) (codec : Codec) (sha256 : Bytes → Bytes) where
  unfoldable pub serve : Input → World S → World S
  serve (arrived read random) w = (accept api codec read random w).1
  serve (received id payload since now) w = receive api codec sha256 id payload since now w
  serve (gone id) w = disconnect api codec sha256 id w
  serve (ticked d) w = run api codec d w

  unfoldable pub serve_all : List Input → World S → World S
  serve_all [] w = w
  serve_all (x ∷ xs) w = serve_all xs (serve x w)

  -- `Start` begins the loop in a goroutine and listens, so connections may come before the loop has
  -- restored the coordinator, and before its first round.
  unfoldable pub start : Duration → Duration → Duration → Option S → World S
  start interval expire window state = record {
    coord = new_coordinator interval expire window;
    state = state;
    log = [];
  }
