-- ===== src/TcpServer.antt =====
-- channels.go and tcp/server.go: the channels by their names, and the life of a connection. Each
-- function is what one goroutine does between two waits.
pub mod Channels
pub mod Goroutines
pub mod Calm
pub mod Loop
pub mod Names
pub mod Owners
pub mod Overlap
pub mod Atomic
use kupool.Common.{
  if◌then◌else◌, Text, nat_key, text_key, Map, lookup, insert, delete, Bytes, codes, pos, Duration,
  second, ℕ, zero, suc, ◌*◌, Bool, true, false, Option, none, some, List, [], ◌∷◌, map,
}
use kupool.Frame.{Frame, op_close}
use kupool.Channel.{Channel, Pushed, new_channel, set_read_wait, set_write_wait}
use kupool.Channel
use kupool.Waits.{default_login_wait, default_read_wait}

-- `ChannelsImpl`, in the order in which `Range` visits it.
abbrev pub ChannelMap : Type 0
ChannelMap = Map Text Channel

abbrev pub new_channels : ChannelMap
new_channels = []

abbrev pub get : Text → ChannelMap → Option Channel
get id m = lookup id m

unfoldable pub all : ChannelMap → List Channel
all m = map (λ (x : Text × Channel). x.1) m

unfoldable pub add : Channel → ChannelMap → ChannelMap
add ch m = insert ch.id ch m

unfoldable pub remove : Text → ChannelMap → ChannelMap
remove id m = delete id m

-- An interface that the server is given, or that is nil; the default acceptor draws a new name.
pub data Part : Type 0 where
  absent default_part given : Part

abbrev pub or_default : Part → Part
or_default absent = default_part
or_default default_part = default_part
or_default given = given

abbrev pub is_absent : Part → Bool
is_absent absent = true
is_absent default_part = false
is_absent given = false

pub record ServerOptions : Type 0 where
  pub login_wait : Duration
  pub read_wait : Duration
  pub write_wait : Duration

-- `disconnected` holds the names handed to the state listener, the newest first.
pub record TcpServer : Type 0 where
  pub channels : ChannelMap
  pub acceptor : Part
  pub message_listener : Part
  pub state_listener : Part
  pub options : ServerOptions
  pub once_done : Bool
  pub disconnected : List Text

unfoldable pub new_server : TcpServer
new_server = record {
  channels = new_channels;
  acceptor = absent;
  message_listener = absent;
  state_listener = absent;
  options = record {
    login_wait = default_login_wait;
    read_wait = default_read_wait;
    write_wait = pos (10 * second);
  };
  once_done = false;
  disconnected = [];
}

-- Lines 57 to 67: whether the server comes to listen. `listens` is whether `net.Listen` succeeds.
pub data Started : Type 0 where
  listening no_state_listener listen_failed : Started

unfoldable pub start : Bool → TcpServer → Started × TcpServer
start listens s = if is_absent s.state_listener then (no_state_listener, s) else (
  if listens then listening else listen_failed,
  record s { acceptor = or_default s.acceptor },
)

-- What the acceptor returns: a name for the channel, or an error.
pub data Answer : Type 0 where
  accepted refused : Text → Answer

-- `defaultAcceptor`, over the identifier that ksuid draws.
unfoldable pub default_accept : Text → Answer
default_accept id = accepted id

abbrev pub close_frame : Text → Frame
close_frame reason = record { op_code = op_close; payload = reason }

-- Lines 79 to 97: the frame that is written on a connection that is turned away, or none.
unfoldable pub enter : Answer → TcpServer → Option Frame × TcpServer
enter (refused reason) s = (some (close_frame reason), s)
enter (accepted id) s = elim (get id s.channels) [
  | some ch ↦ (some (close_frame (codes "channelId is repeated")), s)
  | none ↦
      let ch =
        set_write_wait s.options.write_wait (set_read_wait s.options.read_wait (new_channel id)) in
      (none, record s { channels = add ch s.channels })
]

-- Lines 104 to 106, when the reading loop of the channel has ended.
unfoldable pub leave : Text → TcpServer → TcpServer
leave id s = record s { channels = remove id s.channels; disconnected = id ∷ s.disconnected }

-- `Push`: the outcome on the channel, or that there is none of the name.
unfoldable pub push : Text → Bytes → TcpServer → Option Pushed × TcpServer
push id bytes s = elim (get id s.channels) [
  | none ↦ (none, s)
  | some ch ↦
      let r = Channel.push bytes ch in (some r.0, record s { channels = insert id r.1 s.channels })
]

-- The loop of `Shutdown`: after each channel it looks whether the context has ended; the numbers
-- of channels that it closes before that is `n`.
unfoldable pub close_all : ℕ → ChannelMap → ChannelMap
close_all n [] = []
close_all zero ((k, ch) ∷ m) = (k, Channel.close ch) ∷ m
close_all (suc n) ((k, ch) ∷ m) = (k, Channel.close ch) ∷ close_all n m

unfoldable pub shutdown : ℕ → TcpServer → TcpServer
shutdown n s =
    if s.once_done then s else record s { once_done = true; channels = close_all n s.channels }

unfoldable pub set_acceptor : Part → TcpServer → TcpServer
set_acceptor p s = record s { acceptor = p }

unfoldable pub set_message_listener : Part → TcpServer → TcpServer
set_message_listener p s = record s { message_listener = p }

unfoldable pub set_state_listener : Part → TcpServer → TcpServer
set_state_listener p s = record s { state_listener = p }

unfoldable pub set_channel_map : ChannelMap → TcpServer → TcpServer
set_channel_map m s = record s { channels = m }

unfoldable pub set_read_wait_option : Duration → TcpServer → TcpServer
set_read_wait_option d s = record s {
  options = record {
    login_wait = s.options.login_wait;
    read_wait = d;
    write_wait = s.options.write_wait;
  };
}
