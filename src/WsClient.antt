-- ===== src/WsClient.antt =====
-- websocket/client.go: the client's connection state. What the network does is an argument of each
-- call; the frames that the client writes are masked by wsutil on the way.
use kupool.Common.{
  ltb, ◌==◌, if◌then◌else◌, Text, Bytes, pos, negsuc, Duration, stamp_key, ℕ, zero, suc, ◌+◌, Bool,
  true, false, not, Option, none, some, List, [], ◌∷◌, ◌++◌,
}
use kupool.Waits.{default_write_wait, default_read_wait}
use kupool.Frame.{Frame, op_binary, op_close, op_ping}
use kupool.TcpClient.{
  ClientOptions, ConnectError, bad_address, already_connected, dial_failed, no_conn, Dialed, failed,
  nil_conn, dialed, SendError, not_connected, deadline_failed, write_failed, nil_fault, ReadError,
  no_connection, read_failed, remote_closed,
}
use kupool.Websocket.{RawFrame}

-- `state` is the flag of the compare-and-swap. Connections are numbered as they are dialed: `conn` is
-- the current one, `beating` are those that a heartbeat loop was begun on, and each frame is written
-- on the connection beside it.
pub record WsClient : Type 0 where
  pub id : Text
  pub name : Text
  pub options : ClientOptions
  pub connected : Bool
  pub conn : Option ℕ
  pub dials : ℕ
  pub closed_conn : Option ℕ
  pub once_done : Bool
  pub beating : List ℕ
  pub written : List (ℕ × Frame)

abbrev or_default : Duration → Duration → Duration
or_default (pos zero) d = d
or_default (pos (suc n)) d = pos (suc n)
or_default (negsuc n) d = negsuc n

-- A heartbeat of zero stays as it is.
unfoldable pub new_client : Text → Text → ClientOptions → WsClient
new_client id name opts = record {
  id = id;
  name = name;
  options = record {
    heartbeat = opts.heartbeat;
    read_wait = or_default opts.read_wait default_read_wait;
    write_wait = or_default opts.write_wait default_write_wait;
  };
  connected = false;
  conn = none;
  dials = 0;
  closed_conn = none;
  once_done = false;
  beating = [];
  written = [];
}

abbrev is_positive : Duration → Bool
is_positive (pos n) = ltb 0 n
is_positive (negsuc n) = false

-- `Connect`: the address parses or does not, and the dialer answers.
unfoldable pub connect : Bool → Dialed → WsClient → Option ConnectError × WsClient
connect parses answer c =
    if not parses
    then (some bad_address, c)
    else if c.connected
    then (some already_connected, c)
    else elim answer [
      | failed ↦ (some dial_failed, c)
      | nil_conn ↦ (some no_conn, record c { connected = true })
      | dialed ↦ (
        none,
        record c {
          connected = true;
          conn = some c.dials;
          dials = c.dials + 1;
          beating = if is_positive c.options.heartbeat then c.dials ∷ c.beating else c.beating;
        },
      )
    ]

-- The deadline, then `WriteClientMessage`, on a connection.
abbrev write : Bool → Bool → Frame → ℕ → WsClient → Option SendError × WsClient
write deadline_set written f conn c =
    if not deadline_set
    then (some deadline_failed, c)
    else if not written
    then (some write_failed, c)
    else (none, record c { written = c.written ++ (conn, f) ∷ [] })

-- On the client's connection.
unfoldable pub send : Bool → Bool → Bytes → WsClient → Option SendError × WsClient
send deadline_set written payload c =
    if not c.connected then (some not_connected, c) else elim c.conn [
      | none ↦ (some nil_fault, c)
      | some n ↦ write deadline_set written (record { op_code = op_binary; payload = payload }) n c
    ]

-- On the connection that the heartbeat loop was begun on, which need not be the client's any more.
unfoldable pub ping : ℕ → Bool → Bool → WsClient → Option SendError × WsClient
ping conn deadline_set written c =
    write deadline_set written (record { op_code = op_ping; payload = [] }) conn c

-- `heartbealoop`: the outcomes of its pings, until one fails.
unfoldable pub heartbeat_loop : ℕ → List (Bool × Bool) → WsClient → Option SendError × WsClient
heartbeat_loop conn [] c = (none, c)
heartbeat_loop conn ((d, w) ∷ ticks) c = elim (ping conn d w c).0 [
  | none ↦ heartbeat_loop conn ticks (ping conn d w c).1
  | some e ↦ (some e, (ping conn d w c).1)
]

unfoldable pub close : WsClient → WsClient
close c = if c.once_done then c else elim c.conn [
  | none ↦ record c { once_done = true }
  | some n ↦ record c {
    once_done = true;
    written = c.written ++ (n, record { op_code = op_close; payload = [] }) ∷ [];
    closed_conn = some n;
    connected = false;
  }
]

pub data Read : Type 0 where
  frame : RawFrame → Read
  error : ReadError → Read

-- `Read`, over what the connection gives.
unfoldable pub read : Option RawFrame → WsClient → Read
read answer c = elim c.conn [
  | none ↦ error no_connection
  | some n ↦ elim answer [
    | none ↦ error read_failed
    | some f ↦ if f.header.op_code == op_close then error remote_closed else frame f
  ]
]
