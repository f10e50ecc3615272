-- ===== src/Examples/Sockets.antt =====
-- Tests of the WebSocket transport and of the queue over RabbitMQ.
use kupool.Common.{
  ◌==◌, if◌then◌else◌, take, drop, nat_key, text_key, Bytes, codes, pos, Time, Stamp, stamp_key, ℕ,
  ◌%◌, ◌^◌, ◌≡◌, refl, true, false, Option, none, some, List, [], ◌∷◌, ◌++◌, arith,
}
use kupool.State.{SubmitEvent}
use kupool.Frame.{Frame}
use kupool.Channel.{new_channel, read_loop}
use kupool.Channel.Delivery.{messages}
use kupool.TcpServer.{given, accepted}
use kupool.TcpServer
use kupool.Websocket.{Ws}
use kupool.Websocket.Delivery.{seen_all, masked_all, plain_all, read_loop-masked}
use kupool.WsServer
use kupool.WsServer.Equivalence.{
  Happening, joined, left, pushed, stopped, waits, ws_run, tcp_run, of_tcp, ws_set_up, tcp_set_up,
  ws_run-tcp_run,
}
use kupool.RabbitQueue.{Delivery, EventCodec, RabbitQueue, marked, deliver_all}
use kupool.RabbitQueue.Deliveries.{decoded, marks_of}
use kupool.AppServer.{stop_consume, consume}
use kupool.Memory.{memory_stats_store, new_memory_store, get}
use kupool.Memory.Counts.{count}
use kupool.System.Pipeline.{signals}
use kupool.System.Durable.{deliver_all-consume}
use kupool.Examples.Toys.{hello, ping, at_work}

abbrev happenings : List Happening
happenings =
    joined (some (accepted (codes "c1")))
    ∷ joined none
    ∷ pushed (codes "c1") (1 ∷ [])
    ∷ waits (pos 5)
    ∷ stopped 0
    ∷ left (codes "c1")
    ∷ []

ws_run-tcp_run_example :
    ws_run happenings (WsServer.start (ws_set_up given given)).1
    ≡ of_tcp (tcp_run happenings (TcpServer.start true (tcp_set_up given given)).1)
ws_run-tcp_run_example = ws_run-tcp_run given given happenings

-- A cipher that exchanges the byte 0 and the first byte of the mask, and so undoes itself.
abbrev flip : ℕ → ℕ → ℕ
flip k b = if b == 0 then k else if b == k then 0 else b

abbrev flip_all : ℕ → Bytes → Bytes
flip_all k [] = []
flip_all k (b ∷ bs) = flip k b ∷ flip_all k bs

abbrev flip_by : Bytes → Bytes → Bytes
flip_by b [] = b
flip_by b (k ∷ ks) = flip_all k b

abbrev sockets : Ws Bytes
sockets = record {
  cipher = flip_by;
  read_frame = λ c. (none, c);
  new_frame = λ code payload. record {
    header = record { op_code = code; masked = false; mask = [] };
    payload = payload;
  };
  write_frame = λ f c. (none, c ++ f.payload);
  write_client_message = λ code payload c. (none, c ++ payload);
}

flip_twice : (k b : ℕ) → flip k (flip k b) ≡ b
flip_twice k b = ground arith

flip_all_twice : (k : ℕ) (b : Bytes) → flip_all k (flip_all k b) ≡ b
flip_all_twice k [] = refl
flip_all_twice k (b ∷ bs) = rw (flip_twice k b, flip_all_twice k bs) refl

flip_by_twice : (b mask : Bytes) → flip_by (flip_by b mask) mask ≡ b
flip_by_twice b [] = refl
flip_by_twice b (k ∷ ks) = flip_all_twice k b

abbrev sent_frames : List (Bytes × Frame)
sent_frames = (9 ∷ [], ping) ∷ (104 ∷ [], hello) ∷ []

read_loop-masked_example :
    (read_loop
      (seen_all sockets (masked_all sockets sent_frames))
      (new_channel (codes "c1"))).1.delivered
    ≡ (new_channel (codes "c1")).delivered ++ messages (plain_all sockets sent_frames)
read_loop-masked_example =
    read_loop-masked sockets flip_by_twice sent_frames (new_channel (codes "c1"))

-- Another location for each delivery.
abbrev in_zone : ℕ → Time → Stamp
in_zone n t = record { instant = t; zone = n }

abbrev decode : ℕ → Bytes → Option SubmitEvent
decode n [] = none
decode n (t ∷ user) = some (record { username = user; time = in_zone n t })

abbrev json : EventCodec
json = record { encode = λ e. e.time.instant ∷ e.username; decode = decode }

abbrev open_queue : RabbitQueue
open_queue = record { queue = codes "q"; out = []; out_closed = false; marks = [] }

abbrev bodies : List Delivery
bodies = (1, 7 ∷ codes "a") ∷ (2, []) ∷ (3, 8 ∷ codes "a") ∷ []

deliver_all-consume_example :
    let d = deliver_all json bodies open_queue in
    let rest = signals (take 1 d.1.out) ++ stop_consume ∷ signals (drop 1 d.1.out) in
    (d.0 ≡ marked)
    × (d.1.marks ≡ open_queue.marks ++ marks_of json bodies)
    × (get (codes "a") (in_zone 1 7) (consume memory_stats_store rest (new_memory_store, at_work)).0
        ≡ some (count (codes "a") (in_zone 1 7) (take 1 (decoded json bodies)) % 2 ^ 64))
unfolding decoded
deliver_all-consume_example =
    deliver_all-consume json bodies open_queue 1 at_work (codes "a") (in_zone 1 7) refl refl
      (omega arith)
