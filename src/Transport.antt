-- ===== src/Transport.antt =====
-- server.go: the interfaces of the transport as records of operations over a state, and the TCP and
-- WebSocket implementations of them. What the network does is an argument of each call.
use kupool.Common.{Text, Bytes, Duration, ℕ, Bool, true, false, Option, none, some}
use kupool.Frame.{Frame}
use kupool.Channel.{Pushed}
use kupool.TcpServer.{TcpServer, ChannelMap, Part}
use kupool.TcpServer
use kupool.WsServer.{WsServer}
use kupool.WsServer
use kupool.TcpClient.{TcpClient, ConnectError, Dialed, SendError, ReadError, bad_address}
use kupool.TcpClient
use kupool.WsClient.{WsClient}
use kupool.WsClient
use kupool.Websocket.{RawFrame}
use kupool.Websocket

pub data StartError : Type 0 where
  no_state_listener listen_failed : StartError

-- The outcome of `Push`. `panics`: the map of the channels is a nil interface.
pub data PushOutcome : Type 0 where
  panics no_channel : PushOutcome
  pushed : Pushed → PushOutcome

-- `Server`. `start` is given whether the network lets it listen; `none` is a server that goes on
-- to serve. `shutdown` is given after how many channels its context ends.
pub record Server (T : Type 0) : Type 0 where
  pub set_acceptor : Part → T → T
  pub set_message_listener : Part → T → T
  pub set_state_listener : Part → T → T
  pub set_read_wait : Duration → T → T
  pub set_channel_map : ChannelMap → T → T
  pub start : Bool → T → Option StartError × T
  pub push : Text → Bytes → T → PushOutcome × T
  pub shutdown : ℕ → T → T

-- What `Read` returns: a frame or an error.
pub data Got (F : Type 0) : Type 0 where
  frame : F → Got F
  error : ReadError → Got F

-- `Frame`. A WebSocket frame is turned in place by the call that reads its payload.
pub record FrameOf (F : Type 0) : Type 0 where
  pub set_op_code : ℕ → F → F
  pub get_op_code : F → ℕ
  pub set_payload : Bytes → F → F
  pub get_payload : F → Bytes × F

-- `Client` over frames `F`. `connect` is given whether the address parses and what the dialer
-- returns, `send` whether the deadline can be set and the frame written, `read` what comes.
pub record Client (C F : Type 0) : Type 0 where
  pub frames : FrameOf F
  pub id : C → Text
  pub name : C → Text
  pub connect : Bool → Dialed → C → Option ConnectError × C
  pub send : Bool → Bool → Bytes → C → Option SendError × C
  pub read : Option F → C → Got F
  pub close : C → C

abbrev tcp_started : TcpServer.Started → Option StartError
tcp_started TcpServer.listening = none
tcp_started TcpServer.no_state_listener = some no_state_listener
tcp_started TcpServer.listen_failed = some listen_failed

abbrev tcp_pushed : Option Pushed → PushOutcome
tcp_pushed none = no_channel
tcp_pushed (some p) = pushed p

abbrev pub tcp_server : Server TcpServer
tcp_server = record {
  set_acceptor = TcpServer.set_acceptor;
  set_message_listener = TcpServer.set_message_listener;
  set_state_listener = TcpServer.set_state_listener;
  set_read_wait = TcpServer.set_read_wait_option;
  set_channel_map = TcpServer.set_channel_map;
  start = λ listens s. let r = TcpServer.start listens s in (tcp_started r.0, r.1);
  push = λ id bytes s. let r = TcpServer.push id bytes s in (tcp_pushed r.0, r.1);
  shutdown = TcpServer.shutdown;
}

-- Line 109: the error of `ListenAndServe` comes behind the start.
abbrev ws_started : Bool → WsServer.Started → Option StartError
ws_started true WsServer.listens = none
ws_started false WsServer.listens = some listen_failed
ws_started listens WsServer.no_state_listener = some no_state_listener

abbrev ws_pushed : WsServer.Outcome → PushOutcome
ws_pushed WsServer.panics = panics
ws_pushed WsServer.no_channel = no_channel
ws_pushed (WsServer.pushed p) = pushed p

abbrev pub ws_server : Server WsServer
ws_server = record {
  set_acceptor = WsServer.set_acceptor;
  set_message_listener = WsServer.set_message_listener;
  set_state_listener = WsServer.set_state_listener;
  set_read_wait = WsServer.set_read_wait_option;
  set_channel_map = λ m. WsServer.set_channel_map (some m);
  start = λ listens s. let r = WsServer.start s in (ws_started listens r.0, r.1);
  push = λ id bytes s. let r = WsServer.push id bytes s in (ws_pushed r.0, r.1);
  shutdown = WsServer.shutdown;
}

-- `tcp.Frame`.
abbrev pub tcp_frames : FrameOf Frame
tcp_frames = record {
  set_op_code = λ code f. record { op_code = code; payload = f.payload };
  get_op_code = λ f. f.op_code;
  set_payload = λ payload f. record { op_code = f.op_code; payload = payload };
  get_payload = λ f. (f.payload, f);
}

abbrev tcp_got : TcpClient.Read → Got Frame
tcp_got (TcpClient.frame f) = frame f
tcp_got (TcpClient.error e) = error e

abbrev pub tcp_client : Client TcpClient Frame
tcp_client = record {
  frames = tcp_frames;
  id = λ c. c.id;
  name = λ c. c.name;
  connect = TcpClient.connect;
  send = TcpClient.send;
  read = λ answer c. tcp_got (TcpClient.read answer c);
  close = TcpClient.close;
}

abbrev ws_got : WsClient.Read → Got RawFrame
ws_got (WsClient.frame f) = frame f
ws_got (WsClient.error e) = error e

module _ {C : Type 0} (ws : Websocket.Ws C) where
  abbrev pub ws_frames : FrameOf RawFrame
  ws_frames = record {
    set_op_code = Websocket.set_op_code;
    get_op_code = Websocket.get_op_code;
    set_payload = Websocket.set_payload;
    get_payload = Websocket.get_payload ws;
  }

  abbrev pub ws_client : Client WsClient RawFrame
  ws_client = record {
    frames = ws_frames;
    id = λ c. c.id;
    name = λ c. c.name;
    connect = WsClient.connect;
    send = WsClient.send;
    read = λ answer c. ws_got (WsClient.read answer c);
    close = WsClient.close;
  }
