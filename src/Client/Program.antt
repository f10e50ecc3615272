-- ===== src/Client/Program.antt =====
-- cmd/kupool-client/main.go over app/client/client.go and tcp/client.go: the miner's program. The
-- network says whether an address parses, what the dialer returns for it, and which frames can be
-- written.
use kupool.Common.{
  if◌then◌else◌, Text, Bytes, codes, pos, Bool, true, false, Option, none, some, List, [], ◌∷◌,
}
use kupool.Frame.{Frame}
use kupool.Protocol.{Codec}
use kupool.TcpClient.{TcpClient, ConnectError, Dialed, dialed, connect}
use kupool.TcpClient
use kupool.Client.{Client, Input, new_client, authorize_frame, step}

pub record Flags : Type 0 where
  pub addr : Text
  pub username : Text

unfoldable pub default_flags : Flags
default_flags = record { addr = codes "localhost:8080"; username = codes "admin" }

-- `Client` of the application, with the client of the transport that it is over. The list of
-- frames in `state` holds what a step hands to `Send`, and is empty in between.
pub record App : Type 0 where
  pub cli : TcpClient
  pub state : Client

unfoldable pub new_app : Text → App
new_app username = record {
  cli =
      TcpClient.new_client username (codes "client")
        (record { heartbeat = pos 0; read_wait = pos 0; write_wait = pos 0 });
  state = new_client username;
}

-- `Close` hands on to the transport.
unfoldable pub close_app : App → App
close_app a = record a { cli = TcpClient.close a.cli }

-- What happens behind `Connect`: an input of the loop, or a tick of the heartbeat, each with whether
-- the deadline can be set and the frame be written; or the Close of the goroutine that waits for the
-- signal. That goroutine also cancels the context, the input `done` of the loop.
pub data Event : Type 0 where
  looped : Input → Bool → Bool → Event
  beat : Bool → Bool → Event
  closing : Event

-- How the program ends: with status 1 when the connection fails, or behind the loop, which may
-- still wait for its next input.
pub data Exit : Type 0 where
  fatal : ConnectError → Exit
  returned : Bool × App → Exit

-- `heartbealoop` ends with the first ping that fails.
unfoldable pub beat_once : Bool → Bool → TcpClient → TcpClient
beat_once d w c =
    if c.beating
    then (elim (TcpClient.ping d w c).0 [
      | none ↦ (TcpClient.ping d w c).1
      | some e ↦ record c { beating = false }
    ])
    else c

-- The calls of `Send`, the oldest last; what they return is dropped.
unfoldable pub deliver : Bool → Bool → List Frame → TcpClient → TcpClient
deliver d w [] cli = cli
deliver d w (f ∷ fs) cli = (TcpClient.send d w f.payload (deliver d w fs cli)).1

module _ (codec : Codec) (sha256 : Bytes → Bytes) where
  -- `Connect`: the dialer writes the authorize request, if it can, on the connection that it returns.
  unfoldable pub connect_app : Bool → Dialed → Bool → App → Option ConnectError × App
  connect_app parses answer greets a =
      let r = connect parses answer a.cli in
      let hello = authorize_frame codec sha256 a.state.username in
      elim r.0 [
        | none ↦
            (none, record a { cli = if greets then record r.1 { written = hello ∷ [] } else r.1 })
        | some e ↦ (some e, record a { cli = r.1 })
      ]

  abbrev stepped : Bool → Bool → App → Option Client → Bool × App
  stepped d w a none = (true, a)
  stepped d w a (some c) =
      (false, record { cli = deliver d w c.sent a.cli; state = record c { sent = [] } })

  -- Whether the program has ended, and what it leaves.
  unfoldable pub step_app : Event → App → Bool × App
  step_app (looped x d w) a = stepped d w a (step codec sha256 x a.state)
  step_app (beat d w) a = (false, record a { cli = beat_once d w a.cli })
  step_app closing a = (false, close_app a)

  unfoldable pub run_app : List Event → App → Bool × App
  run_app [] a = (false, a)
  run_app (x ∷ xs) a =
      let rest = run_app xs (step_app x a).1 in
      if (step_app x a).0 then (true, (step_app x a).1) else rest

  abbrev pub go_on : List Event → Option ConnectError × App → Exit
  go_on xs (some e, a) = fatal e
  go_on xs (none, a) = returned (run_app xs a)

  unfoldable pub main : (Text → Bool) → (Text → Dialed) → Bool → Flags → List Event → Exit
  main parses dial greets flags xs =
      go_on xs (connect_app (parses flags.addr) (dial flags.addr) greets (new_app flags.username))
