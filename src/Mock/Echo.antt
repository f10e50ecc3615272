-- ===== src/Mock/Echo.antt =====
-- examples/mock over channel.go: the answers of the demonstration server to its client.
use kupool.Common.{
  length, All, length-append, length-map, take-map, Text, Bytes, ◌+◌, ◌≤◌, ◌<◌, ◌≡◌, refl, ap, ◌∙◌,
  ◌≢◌, true, false, some, List, [], ◌∷◌, ◌++◌, map, arith,
}
use mathlib.Core.List.{append-nil, append_assoc}
use kupool.Event.{has_fired, new_event}
use kupool.Channel.{Channel, capacity, new_channel, push, read_loop, write_round}
use kupool.Channel.Delivery.{messages, frames_of, write_round_empties}
use kupool.TcpClient.{TcpClient}
use kupool.Transport.{tcp_client}
use kupool.Mock.{LoopEnd, ack, receive, counted, receive_hellos}
use kupool.Mock.Demo.{binaries, receive_hellos-binaries}

abbrev IsPayload : Bytes → Type 0
IsPayload p = p ≢ []

-- The handler on each of the payloads, in turn.
unfoldable pub receive_each : List Bytes → Channel → Channel
receive_each [] ch = ch
receive_each (p ∷ ps) ch = receive_each ps (receive p ch).1

-- A channel that takes pushes.
abbrev IsOpen : Channel → Type 0
IsOpen ch = (has_fired ch.closed ≡ false) × (ch.queue_closed ≡ false)

receive_open :
    (p : Bytes) (ch : Channel)
    → IsOpen ch
    → length ch.queue < capacity
    → (receive p ch).1 ≡ record ch { queue = ch.queue ++ ack p ∷ [] }
unfolding receive push
receive_open p ch h room = ground (arith, h.0, h.1, room)

receive_each-queue :
    (ps : List Bytes) (ch : Channel)
    → IsOpen ch
    → length ch.queue + length ps ≤ capacity
    → receive_each ps ch ≡ record ch { queue = ch.queue ++ map ack ps }
unfolding receive_each
receive_each-queue [] ch h room = rw (append-nil ch.queue) refl
receive_each-queue (p ∷ ps) ch h room =
    let longer = length-append ch.queue (ack p ∷ []) in
    rw
      (
        receive_open p ch h (omega (arith, room)),
        receive_each-queue ps (record ch { queue = ch.queue ++ ack p ∷ [] }) h
            (omega (arith, longer, room)),
        append_assoc ch.queue (ack p ∷ []) (map ack ps),
      )
      refl

messages-frames_of : (ps : List Bytes) → All IsPayload ps → messages (frames_of ps) ≡ ps
unfolding messages
messages-frames_of [] h = refl
messages-frames_of (p ∷ ps) h = ground (arith, messages-frames_of ps h.1, h.0)

binaries-frames_of : (ps : List Bytes) → binaries (map some (frames_of ps)) ≡ ps
unfolding binaries
binaries-frames_of [] = refl
binaries-frames_of (p ∷ ps) = ap (◌∷◌ p) (binaries-frames_of ps)

read_loop-frames_of :
    (ps : List Bytes) (ch : Channel)
    → All IsPayload ps
    → (read_loop (frames_of ps) ch).1 ≡ record ch { delivered = ch.delivered ++ ps }
unfolding read_loop
read_loop-frames_of [] ch h = rw (append-nil ch.delivered) refl
read_loop-frames_of ([] ∷ ps) ch h = absurd (h.0 refl)
read_loop-frames_of ((b ∷ bs) ∷ ps) ch h =
    rw
      (
        read_loop-frames_of ps (record ch { delivered = ch.delivered ++ (b ∷ bs) ∷ [] }) h.1,
        append_assoc ch.delivered ((b ∷ bs) ∷ []) ps,
      )
      refl

-- The channel of a client that has sent the payloads, behind the handler and a round of writing.
abbrev pub served : Text → List Bytes → Channel
served id ps =
    let ch = (read_loop (frames_of ps) (new_channel id)).1 in
    write_round (receive_each ch.delivered ch)

served-written :
    (id : Text) (p : Bytes) (ps : List Bytes)
    → All IsPayload (p ∷ ps)
    → length (p ∷ ps) ≤ capacity
    → (served id (p ∷ ps)).written ≡ frames_of (map ack (p ∷ ps))
unfolding new_channel new_event has_fired
served-written id p ps h room =
    let ch : Channel = record (new_channel id) { delivered = p ∷ ps } in
    let handled = receive_each-queue (p ∷ ps) ch (refl, refl) (omega (arith, room)) in
    rw (read_loop-frames_of (p ∷ ps) (new_channel id) h, handled)
      (write_round_empties (record ch { queue = map ack (p ∷ ps) }) (ground arith)).0

pair-eq : (r : LoopEnd × List Bytes) (e : LoopEnd) (l : List Bytes) → r.0 ≡ e → r.1 ≡ l → r ≡ (e, l)
pair-eq (a, b) e l h k = cc

-- A client sends at most five payloads, none of them empty, on a new channel of the demonstration
-- server. The server hands them to its handler in turn, and a round of the writing loop sends the
-- answers: a client that has a connection and awaits as many frames receives each payload with the
-- server's suffix, in order, and ends by its count.
pub receive_hellos-served :
    (id : Text) (ps : List Bytes) (c : TcpClient)
    → All IsPayload ps
    → ps ≢ []
    → length ps ≤ capacity
    → c.has_conn ≡ true
    → receive_hellos tcp_client (length ps) (map some (served id ps).written) c
      ≡ (counted, map ack ps)
receive_hellos-served id [] c h full room conn = absurd (full refl)
receive_hellos-served id (p ∷ ps) c h full room conn =
    let answers = map ack (p ∷ ps) in
    let size = length-map ack (p ∷ ps) in
    let shown = receive_hellos-binaries (length ps) (map some (frames_of answers)) c conn in
    let all = rw (binaries-frames_of answers) at shown.0 in
    let ended = shown.1.1 (rw (binaries-frames_of answers) (omega (arith, size))) in
    rw (served-written id p ps h room)
      (pair-eq _ counted answers ended (all ∙ take-map ack (p ∷ ps)))
