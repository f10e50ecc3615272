-- ===== src/System/Connection.antt =====
-- tcp/server.go, Start: a connection from its first byte to its end, over the acceptor, the reading
-- loop of its channel, the listener and the state listener.
use kupool.Common.{
  length, Text, nat_key, text_key, Bytes, Time, ℕ, ◌+◌, Option, none, some, List, [], ◌∷◌,
}
use kupool.Io.{ok, err, Source}
use kupool.Frame.{Frame, read_frame}
use kupool.Protocol.{Codec}
use kupool.State.{StateStore, World}
use kupool.Listener.{receive, disconnect}
use kupool.Acceptor.{Accepted, AcceptError, accept}
use kupool.Acceptor
use kupool.Channel.{Channel}
use kupool.Channel.Stream.{read_stream}
use kupool.TcpServer.Channels.{configured}
use kupool.TcpServer.{TcpServer, accepted, enter, leave}

-- Each payload is received in a goroutine of its own: `order` gives those that run before the
-- connection's session ends and those that run behind, each in the order in which they run, and
-- `clock` the two readings of the clock of each.
pub record Schedule : Type 0 where
  pub order : List Bytes → List Bytes × List Bytes
  pub clock : ℕ → Time × Time

-- What a connection leaves: the application and the transport.
pub record Served (S : Type 0) : Type 0 where
  pub world : World S
  pub server : TcpServer

module _ {S : Type 0} (api : StateStore S) (codec : Codec) (sha256 : Bytes → Bytes) where
  unfoldable pub receive_all : (ℕ → Time × Time) → ℕ → Text → List Bytes → World S → World S
  receive_all clock i id [] w = w
  receive_all clock i id (p ∷ ps) w =
      receive_all clock (i + 1) id ps (receive api codec sha256 id p (clock i).0 (clock i).1 w)

  -- Lines 100 to 106: the reading loop, what its goroutines do, and the end, with which the channel
  -- is closed and forgotten. `none`: out of fuel.
  abbrev pub finish : Schedule → Text → List Bytes → Served S → Served S
  finish sch id payloads st =
      let parts = sch.order payloads in
      let w = disconnect api codec sha256 id (receive_all sch.clock 0 id parts.0 st.world) in
      record {
        world = receive_all sch.clock (length parts.0) id parts.1 w;
        server = leave id st.server;
      }

  unfoldable pub converse : Schedule → ℕ → Text → Source → Channel → Served S → Option (Served S)
  converse sch n id rest ch st = elim (read_stream n rest ch) [
    | none ↦ none
    | some x ↦ some (finish sch id x.1.delivered st)
  ]

  -- Lines 86 to 97: the name may be taken, otherwise there is a channel.
  unfoldable pub entered : Schedule → ℕ → Text → Source → Served S → Option (Served S)
  entered sch n id rest st =
      let r = enter (accepted id) st.server in
      elim r.0 [
        | some f ↦ some (record { world = st.world; server = r.1 })
        | none ↦
            let ch = configured st.server.options.write_wait st.server.options.read_wait id in
            converse sch n id rest ch (record { world = st.world; server = r.1 })
      ]

  abbrev admitted : Schedule → ℕ → Source → TcpServer → Accepted Text × World S → Option (Served S)
  admitted sch n rest srv (Acceptor.err e, w) = some (record { world = w; server = srv })
  admitted sch n rest srv (Acceptor.ok id, w) =
      entered sch n id rest (record { world = w; server = srv })

  -- Lines 76 to 107, for the bytes of a connection and the random bytes of its name.
  unfoldable pub connection : Schedule → ℕ → Source → Option Bytes → Served S → Option (Served S)
  connection sch n r random st = elim (read_frame r) [
    | err e ↦ admitted sch n r st.server (accept api codec none random st.world)
    | ok x ↦ admitted sch n x.1 st.server (accept api codec (some x.0) random st.world)
  ]
