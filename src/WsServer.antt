-- ===== src/WsServer.antt =====
-- websocket/server.go: the channels behind the handler of the HTTP server. Each function is what
-- one goroutine does between two waits.
pub mod Equivalence
use kupool.Common.{
  if◌then◌else◌, Text, nat_key, text_key, lookup, insert, Bytes, codes, pos, Duration, second, ℕ,
  zero, suc, ◌*◌, Bool, true, false, Option, none, some, List, [], ◌∷◌,
}
use kupool.Frame.{Frame}
use kupool.Channel.{Channel, Pushed, new_channel, set_read_wait, set_write_wait}
use kupool.Channel
use kupool.TcpServer.{
  Part, absent, or_default, is_absent, ServerOptions, ChannelMap, Answer, accepted, refused,
  close_frame, add, remove,
}
use kupool.Waits.{default_login_wait, default_read_wait}

-- `channels` is nil before `Start`; `disconnected` holds the names handed to the state listener.
pub record WsServer : Type 0 where
  pub channels : Option ChannelMap
  pub acceptor : Part
  pub message_listener : Part
  pub state_listener : Part
  pub options : ServerOptions
  pub once_done : Bool
  pub disconnected : List Text

unfoldable pub new_server : WsServer
new_server = record {
  channels = none;
  acceptor = absent;
  message_listener = absent;
  state_listener = absent;
  options = record {
    login_wait = default_login_wait;
    read_wait = default_read_wait;
    write_wait = pos (10 * second);
  };
  once_done = false;
  disconnected = [];
}

abbrev pub or_empty : Option ChannelMap → ChannelMap
or_empty none = []
or_empty (some m) = m

-- Lines 55 to 63: whether the server comes to listen.
pub data Started : Type 0 where
  listens no_state_listener : Started

unfoldable pub start : WsServer → Started × WsServer
start s =
    let s' = record s { acceptor = or_default s.acceptor } in
    if is_absent s.state_listener
    then (no_state_listener, s')
    else (listens, record s' { channels = some (or_empty s.channels) })

-- What a connection is sent that is turned away: an HTTP status, or a close frame.
pub data Turned : Type 0 where
  bad_request : Turned
  closed : Frame → Turned

abbrev reject : Text → Option Turned
reject reason = some (closed (close_frame reason))

-- Lines 65 to 93, on a server that has started. `none` is an upgrade that fails.
unfoldable pub enter : Option Answer → WsServer → Option Turned × WsServer
enter none s = (some bad_request, s)
enter (some (refused reason)) s = (reject reason, s)
enter (some (accepted id)) s = elim (lookup id (or_empty s.channels)) [
  | some ch ↦ (reject (codes "channelId is repeated"), s)
  | none ↦
      let ch =
        set_read_wait s.options.read_wait (set_write_wait s.options.write_wait (new_channel id)) in
      (none, record s { channels = some (add ch (or_empty s.channels)) })
]

-- Lines 102 to 107, when the reading loop of the channel has ended.
unfoldable pub leave : Text → WsServer → WsServer
leave id s = record s {
  channels = some (remove id (or_empty s.channels));
  disconnected = id ∷ s.disconnected;
}

-- `panics`: the call of `Get` on a nil interface.
pub data Outcome : Type 0 where
  panics no_channel : Outcome
  pushed : Pushed → Outcome

unfoldable pub push : Text → Bytes → WsServer → Outcome × WsServer
push id bytes s = elim s.channels [
  | none ↦ (panics, s)
  | some m ↦ elim (lookup id m) [
    | none ↦ (no_channel, s)
    | some ch ↦
        let r = Channel.push bytes ch in
        (pushed r.0, record s { channels = some (insert id r.1 m) })
  ]
]

-- The context is looked at after each channel; it has ended after `n`.
unfoldable pub close_all : ℕ → ChannelMap → ChannelMap
close_all n [] = []
close_all zero ((k, ch) ∷ m) = (k, Channel.close ch) ∷ m
close_all (suc n) ((k, ch) ∷ m) = (k, Channel.close ch) ∷ close_all n m

-- On a server that has started.
unfoldable pub shutdown : ℕ → WsServer → WsServer
shutdown n s =
    if s.once_done
    then s
    else record s { once_done = true; channels = some (close_all n (or_empty s.channels)) }

unfoldable pub set_acceptor : Part → WsServer → WsServer
set_acceptor p s = record s { acceptor = p }

unfoldable pub set_message_listener : Part → WsServer → WsServer
set_message_listener p s = record s { message_listener = p }

unfoldable pub set_state_listener : Part → WsServer → WsServer
set_state_listener p s = record s { state_listener = p }

unfoldable pub set_channel_map : Option ChannelMap → WsServer → WsServer
set_channel_map m s = record s { channels = m }

unfoldable pub set_read_wait_option : Duration → WsServer → WsServer
set_read_wait_option d s = record s {
  options = record {
    login_wait = s.options.login_wait;
    read_wait = d;
    write_wait = s.options.write_wait;
  };
}
