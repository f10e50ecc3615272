-- ===== src/WsServer/Equivalence.antt =====
-- websocket/server.go against tcp/server.go: both keep the same channels.
use kupool.Common.{
  Text, Bytes, Duration, ℕ, zero, suc, ◌≡◌, refl, ap, ◌∙◌, true, Option, none, some, List, [], ◌∷◌,
  arith,
}
use kupool.Channel
use kupool.Channel.{Channel, new_channel, set_read_wait, set_write_wait}
use kupool.TcpServer.{TcpServer, ChannelMap, Part, given, Answer, accepted, refused, add}
use kupool.TcpServer
use kupool.WsServer.{WsServer, or_empty, close_all}
use kupool.WsServer

-- What happens to a server: a connection, which the WebSocket server may fail to upgrade, the end
-- of a channel, `Push`, `Shutdown`, `SetReadWait`.
pub data Happening : Type 0 where
  joined : Option Answer → Happening
  left : Text → Happening
  pushed : Text → Bytes → Happening
  stopped : ℕ → Happening
  waits : Duration → Happening

abbrev tcp_step : Happening → TcpServer → TcpServer
tcp_step (joined none) s = s
tcp_step (joined (some a)) s = (TcpServer.enter a s).1
tcp_step (left id) s = TcpServer.leave id s
tcp_step (pushed id bytes) s = (TcpServer.push id bytes s).1
tcp_step (stopped n) s = TcpServer.shutdown n s
tcp_step (waits d) s = TcpServer.set_read_wait_option d s

abbrev ws_step : Happening → WsServer → WsServer
ws_step (joined a) s = (WsServer.enter a s).1
ws_step (left id) s = WsServer.leave id s
ws_step (pushed id bytes) s = (WsServer.push id bytes s).1
ws_step (stopped n) s = WsServer.shutdown n s
ws_step (waits d) s = WsServer.set_read_wait_option d s

abbrev pub tcp_run : List Happening → TcpServer → TcpServer
tcp_run [] s = s
tcp_run (x ∷ xs) s = tcp_run xs (tcp_step x s)

abbrev pub ws_run : List Happening → WsServer → WsServer
ws_run [] s = s
ws_run (x ∷ xs) s = ws_run xs (ws_step x s)

-- The WebSocket server that holds what a TCP server holds.
abbrev pub of_tcp : TcpServer → WsServer
of_tcp t = record {
  channels = some t.channels;
  acceptor = t.acceptor;
  message_listener = t.message_listener;
  state_listener = t.state_listener;
  options = t.options;
  once_done = t.once_done;
  disconnected = t.disconnected;
}

close_all-tcp : (n : ℕ) (m : ChannelMap) → close_all n m ≡ TcpServer.close_all n m
unfolding close_all TcpServer.close_all
close_all-tcp n [] = refl
close_all-tcp zero ((k, ch) ∷ m) = refl
close_all-tcp (suc n) ((k, ch) ∷ m) = ap (◌∷◌ (k, Channel.close ch)) (close_all-tcp n m)

set_waits :
    (r w : Duration) (ch : Channel)
    → set_read_wait r (set_write_wait w ch) ≡ set_write_wait w (set_read_wait r ch)
unfolding set_read_wait set_write_wait
set_waits r w ch = ground arith

ws_step-of_tcp : (x : Happening) (t : TcpServer) → ws_step x (of_tcp t) ≡ of_tcp (tcp_step x t)
unfolding TcpServer.enter TcpServer.leave TcpServer.push TcpServer.shutdown
    TcpServer.set_read_wait_option WsServer.enter WsServer.leave WsServer.push WsServer.shutdown
    WsServer.set_read_wait_option
ws_step-of_tcp (joined none) t = refl
ws_step-of_tcp (joined (some (refused reason))) t = refl
ws_step-of_tcp (joined (some (accepted id))) t =
    ground (arith, set_waits t.options.read_wait t.options.write_wait (new_channel id))
ws_step-of_tcp (left id) t = refl
ws_step-of_tcp (pushed id bytes) t = ground arith
ws_step-of_tcp (stopped n) t = ground (arith, close_all-tcp n t.channels)
ws_step-of_tcp (waits d) t = refl

ws_run-of_tcp : (l : List Happening) (t : TcpServer) → ws_run l (of_tcp t) ≡ of_tcp (tcp_run l t)
ws_run-of_tcp [] t = refl
ws_run-of_tcp (x ∷ xs) t = ap (ws_run xs) (ws_step-of_tcp x t) ∙ ws_run-of_tcp xs (tcp_step x t)

-- The servers as they are set up: an acceptor, a message listener and a state listener.
abbrev pub tcp_set_up : Part → Part → TcpServer
tcp_set_up a m =
    TcpServer.set_acceptor a
      (TcpServer.set_message_listener m (TcpServer.set_state_listener given TcpServer.new_server))

abbrev pub ws_set_up : Part → Part → WsServer
ws_set_up a m =
    WsServer.set_acceptor a
      (WsServer.set_message_listener m (WsServer.set_state_listener given WsServer.new_server))

-- A TCP server and a WebSocket server that are set up alike, with a state listener, and then
-- started hold the same channels, waits and reported disconnects, whatever happens to both; a
-- connection that the WebSocket server fails to upgrade counts for none on the TCP server.
pub ws_run-tcp_run :
    (a m : Part) (l : List Happening)
    → ws_run l (WsServer.start (ws_set_up a m)).1
      ≡ of_tcp (tcp_run l (TcpServer.start true (tcp_set_up a m)).1)
unfolding TcpServer.start TcpServer.new_server TcpServer.set_acceptor TcpServer.set_message_listener
    TcpServer.set_state_listener WsServer.start WsServer.new_server WsServer.set_acceptor
    WsServer.set_message_listener WsServer.set_state_listener
ws_run-tcp_run a m l = ws_run-of_tcp l (TcpServer.start true (tcp_set_up a m)).1
