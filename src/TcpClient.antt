-- ===== src/TcpClient.antt =====
-- tcp/client.go: the client's connection state. What the network does is an argument of each call.
pub mod Connection
use kupool.Common.{
  ltb, ◌==◌, if◌then◌else◌, Text, Bytes, pos, negsuc, Duration, zero, suc, Bool, true, false, not,
  Option, none, some, List, [], ◌∷◌, ◌++◌,
}
use kupool.Waits.{default_write_wait, default_read_wait, default_heartbeat}
use kupool.Frame.{Frame, op_binary, op_close, op_ping}

pub record ClientOptions : Type 0 where
  pub heartbeat : Duration
  pub read_wait : Duration
  pub write_wait : Duration

-- `state` is the flag of the compare-and-swap, `has_conn` that a connection is set.
pub record TcpClient : Type 0 where
  pub id : Text
  pub name : Text
  pub options : ClientOptions
  pub connected : Bool
  pub has_conn : Bool
  pub conn_closed : Bool
  pub once_done : Bool
  pub beating : Bool
  pub written : List Frame

abbrev or_default : Duration → Duration → Duration
or_default (pos zero) d = d
or_default (pos (suc n)) d = pos (suc n)
or_default (negsuc n) d = negsuc n

unfoldable pub new_client : Text → Text → ClientOptions → TcpClient
new_client id name opts = record {
  id = id;
  name = name;
  options = record {
    heartbeat = or_default opts.heartbeat default_heartbeat;
    read_wait = or_default opts.read_wait default_read_wait;
    write_wait = or_default opts.write_wait default_write_wait;
  };
  connected = false;
  has_conn = false;
  conn_closed = false;
  once_done = false;
  beating = false;
  written = [];
}

pub data ConnectError : Type 0 where
  bad_address already_connected dial_failed no_conn : ConnectError

-- What `DialAndHandshake` returns: an error, a nil connection, or a connection.
pub data Dialed : Type 0 where
  failed nil_conn dialed : Dialed

abbrev is_positive : Duration → Bool
is_positive (pos n) = ltb 0 n
is_positive (negsuc n) = false

-- `Connect`: the address parses or does not, and the dialer answers.
unfoldable pub connect : Bool → Dialed → TcpClient → Option ConnectError × TcpClient
connect parses answer c =
    if not parses
    then (some bad_address, c)
    else if c.connected
    then (some already_connected, c)
    else elim answer [
      | failed ↦ (some dial_failed, c)
      | nil_conn ↦ (some no_conn, record c { connected = true })
      | dialed ↦ (
        none,
        record c { connected = true; has_conn = true; beating = is_positive c.options.heartbeat },
      )
    ]

-- `closed_conn` stands for the fault of a method called on no connection at all.
pub data SendError : Type 0 where
  not_connected deadline_failed write_failed nil_fault : SendError

-- `Send` and `ping`: whether the deadline can be set, and whether the frame can be written.
abbrev write : Bool → Bool → Frame → TcpClient → Option SendError × TcpClient
write deadline_set written f c =
    if not c.has_conn
    then (some nil_fault, c)
    else if not deadline_set
    then (some deadline_failed, c)
    else if not written
    then (some write_failed, c)
    else (none, record c { written = c.written ++ f ∷ [] })

unfoldable pub send : Bool → Bool → Bytes → TcpClient → Option SendError × TcpClient
send deadline_set written payload c =
    if not c.connected
    then (some not_connected, c)
    else write deadline_set written (record { op_code = op_binary; payload = payload }) c

unfoldable pub ping : Bool → Bool → TcpClient → Option SendError × TcpClient
ping deadline_set written c =
    write deadline_set written (record { op_code = op_ping; payload = [] }) c

-- `heartbealoop`: the outcomes of its pings, until one fails.
unfoldable pub heartbeat_loop : List (Bool × Bool) → TcpClient → Option SendError × TcpClient
heartbeat_loop [] c = (none, c)
heartbeat_loop ((d, w) ∷ ticks) c = elim (ping d w c).0 [
  | none ↦ heartbeat_loop ticks (ping d w c).1
  | some e ↦ (some e, (ping d w c).1)
]

unfoldable pub close : TcpClient → TcpClient
close c =
    if c.once_done then c else if not c.has_conn then record c { once_done = true } else record c {
      once_done = true;
      written = c.written ++ record { op_code = op_close; payload = [] } ∷ [];
      conn_closed = true;
      connected = false;
    }

pub data ReadError : Type 0 where
  no_connection read_failed remote_closed : ReadError

pub data Read : Type 0 where
  frame : Frame → Read
  error : ReadError → Read

-- `Read`, over what the connection gives.
unfoldable pub read : Option Frame → TcpClient → Read
read answer c = if not c.has_conn then error no_connection else elim answer [
  | none ↦ error read_failed
  | some f ↦ if f.op_code == op_close then error remote_closed else frame f
]
