-- ===== src/Mock.antt =====
-- examples/mock: the demonstration server and client over the interfaces of the transport.
pub mod Demo
pub mod Echo
use kupool.Common.{
  ◌==◌, if◌then◌else◌, Text, text_beq, Bytes, codes, pos, minute, ℕ, zero, suc, ◌+◌, ◌-◌, Bool, not,
  Option, none, some, List, [], ◌∷◌, ◌++◌,
}
use kupool.State.{GoError}
use kupool.Frame.{Frame, op_binary}
use kupool.Channel.{Channel, Pushed}
use kupool.Channel
use kupool.TcpServer.{TcpServer, Part, given, Answer, accepted, refused}
use kupool.TcpServer
use kupool.WsServer.{WsServer}
use kupool.WsServer
use kupool.TcpClient.{ClientOptions, Dialed, failed, dialed, SendError}
use kupool.TcpClient.{TcpClient}
use kupool.TcpClient
use kupool.WsClient.{WsClient}
use kupool.WsClient
use kupool.Transport.{Server, StartError, tcp_server, ws_server, FrameOf, Client, Got, frame, error}

-- What `ReadFrame` gives the acceptor: a frame, or an error with its text.
pub data FirstRead (F : Type 0) : Type 0 where
  got : F → FirstRead F
  failed_read : Text → FirstRead F

abbrev named : Text → Answer
named [] = refused (codes "user id is invalid")
named (c ∷ cs) = accepted (c ∷ cs)

-- `ServerHandler.Accept`: whatever the operation of the first frame, its payload is the name.
unfoldable pub accept : {F : Type 0} → FrameOf F → FirstRead F → Answer
accept frames (failed_read e) = refused e
accept frames (got f) = named (frames.get_payload f).0

abbrev pub ack : Bytes → Bytes
ack payload = payload ++ codes " from server "

-- `ServerHandler.Receive`.
unfoldable pub receive : Bytes → Channel → Pushed × Channel
receive payload ch = Channel.push (ack payload) ch

-- `ServerHandler.Disconnect`.
unfoldable pub disconnect : Text → GoError
disconnect id = none

-- `ServerDemo.Start`, over a server of either transport: `some` is the error that it panics with.
unfoldable pub start_server : {T : Type 0} → Server T → Bool → T → Option StartError × T
start_server srv listens s = srv.start listens (
    srv.set_state_listener given
      (srv.set_message_listener given (srv.set_acceptor given (srv.set_read_wait (pos minute) s))))

-- An unknown protocol leaves the interface nil, and the first call on it panics.
pub data DemoServer : Type 0 where
  ws : Option StartError × WsServer → DemoServer
  tcp : Option StartError × TcpServer → DemoServer
  nil_server : DemoServer

unfoldable pub start : Text → Bool → DemoServer
start protocol listens =
    if text_beq protocol (codes "ws")
    then ws (start_server ws_server listens WsServer.new_server)
    else if text_beq protocol (codes "tcp")
    then tcp (start_server tcp_server listens TcpServer.new_server)
    else nil_server

-- `DialAndHandshake` of both dialers: whether the network dials and whether the name is written,
-- and the name, which is the first payload.
unfoldable pub dial : Bool → Bool → Text → Dialed × List Bytes
dial dials writes id =
    if not dials then (failed, []) else if not writes then (failed, []) else (dialed, id ∷ [])

abbrev pub hello : Bytes
hello = codes "hello"

-- How the receiving loop stands: enough frames have come, the connection has failed, or it waits.
pub data LoopEnd : Type 0 where
  counted stopped waiting : LoopEnd

module _ {C F : Type 0} (api : Client C F) where
  -- The goroutine of step 3: `count` sends, or until one fails. The network answers by turns.
  unfoldable pub send_hellos : ℕ → ℕ → (ℕ → Bool × Bool) → C → Option SendError × C
  send_hellos zero i net c = (none, c)
  send_hellos (suc n) i net c =
      let r = api.send (net i).0 (net i).1 hello c in
      elim r.0 [ none ↦ send_hellos n (i + 1) net r.1 | some e ↦ (some e, r.1) ]

  -- Step 4, where `left` more frames are awaited: the payloads that it shows, and how it ends. The
  -- list has what the connection gives.
  unfoldable pub receive_hellos : ℕ → List (Option F) → C → LoopEnd × List Bytes
  receive_hellos left [] c = (waiting, [])
  receive_hellos left (x ∷ xs) c =
      let again = receive_hellos left xs c in
      let next = receive_hellos (left - 1) xs c in
      elim (api.read x c) [
        | error e ↦ (stopped, [])
        | frame f ↦
            if not (api.frames.get_op_code f == op_binary)
            then again
            else let payload = (api.frames.get_payload f).0 in
              if left == 1 then (counted, payload ∷ []) else (next.0, payload ∷ next.1)
      ]

  -- `ClientDemo.Start`: an error of `Connect` is shown, and the client goes on. It is closed only
  -- when the receiving loop has ended; the sends are taken before that.
  abbrev closed_when : LoopEnd → C → C
  closed_when counted c = api.close c
  closed_when stopped c = api.close c
  closed_when waiting c = c

  unfoldable pub start_client :
      Bool → Dialed → (ℕ → Bool × Bool) → List (Option F) → C → (LoopEnd × List Bytes) × C
  start_client parses answer net reads c =
      let c' = (api.connect parses answer c).1 in
      let r = receive_hellos 5 reads c' in (r, closed_when r.0 (send_hellos 5 0 net c').1)

abbrev no_options : ClientOptions
no_options = record { heartbeat = pos 0; read_wait = pos 0; write_wait = pos 0 }

pub data DemoClient : Type 0 where
  ws_demo : WsClient → DemoClient
  tcp_demo : TcpClient → DemoClient
  nil_client : DemoClient

-- Step 1 of `ClientDemo.Start`: over TCP the name of the user is not used.
unfoldable pub choose_client : Text → Text → DemoClient
choose_client user protocol =
    if text_beq protocol (codes "ws")
    then ws_demo (WsClient.new_client user (codes "client") no_options)
    else if text_beq protocol (codes "tcp")
    then tcp_demo (TcpClient.new_client (codes "test1") (codes "client") no_options)
    else nil_client

-- cmd.go: the flags of the two commands, and what `runsrv` does with them.
pub record StartOptions : Type 0 where
  pub addr : Text
  pub protocol : Text

unfoldable pub client_options : StartOptions
client_options = record { addr = codes "ws://localhost:8000"; protocol = codes "ws" }

unfoldable pub server_options : StartOptions
server_options = record { addr = codes ":8000"; protocol = codes "ws" }

unfoldable pub run_server : StartOptions → Bool → DemoServer
run_server opts listens = start opts.protocol listens
