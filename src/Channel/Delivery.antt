-- ===== src/Channel/Delivery.antt =====
-- channel.go: what comes out of the loops.
use kupool.Common.{
  ◌==◌, if◌then◌else◌, Bytes, ◌≡◌, refl, sym, ◌∙◌, ◌≢◌, false, List, [], ◌∷◌, ◌++◌, map, arith,
}
use mathlib.Core.List.{append-nil, append_assoc}
use kupool.Frame.{Frame, op_binary, op_close, op_ping, op_pong}
use kupool.Event.{fire, has_fired}
use kupool.Channel.{Channel, refused, push, close, drain, write_round, write_frame, read_loop}

-- The payloads that a listener is to receive of a sequence of frames: those of all frames but
-- pings, where they are not empty, up to the first frame that closes.
unfoldable pub messages : List Frame → List Bytes
messages [] = []
messages (f ∷ fs) =
    let rest = messages fs in
    if f.op_code == op_close
    then []
    else if f.op_code == op_ping
    then rest
    else elim f.payload [ [] ↦ rest | b ∷ bs ↦ f.payload ∷ rest ]

-- `Readloop` hands the listener these payloads, in order, behind those of before.
pub read_loop-messages :
    (fs : List Frame) (ch : Channel) → (read_loop fs ch).1.delivered ≡ ch.delivered ++ messages fs
unfolding read_loop messages write_frame
read_loop-messages [] ch = sym (append-nil ch.delivered)
read_loop-messages (f ∷ fs) ch =
    let pong : Frame = record { op_code = op_pong; payload = [] } in
    let handed : Channel = record ch { delivered = ch.delivered ++ f.payload ∷ [] } in
    ground (
      arith,
      append-nil ch.delivered,
      read_loop-messages fs (write_frame pong ch),
      read_loop-messages fs ch,
      read_loop-messages fs handed,
      append_assoc ch.delivered (f.payload ∷ []) (messages fs),
    )

abbrev pub frames_of : List Bytes → List Frame
frames_of = map (λ (p : Bytes). record { op_code = op_binary; payload = p })

drain-written :
    (ps : List Bytes) (ch : Channel) → (drain ps ch).written ≡ ch.written ++ frames_of ps
unfolding drain write_frame
drain-written [] ch = sym (append-nil ch.written)
drain-written (p ∷ ps) ch = drain-written ps _ ∙ append_assoc ch.written _ (frames_of ps)

drain-queue : (ps : List Bytes) (ch : Channel) → (drain ps ch).queue ≡ ch.queue
unfolding drain write_frame
drain-queue [] ch = refl
drain-queue (p ∷ ps) ch = drain-queue ps _

write_round_of :
    (ch : Channel) (q : List Bytes)
    → ch.queue ≡ q
    → q ≢ []
    → ((write_round ch).written ≡ ch.written ++ frames_of q) × ((write_round ch).queue ≡ [])
unfolding write_round
write_round_of ch [] e h = absurd (h refl)
write_round_of ch (p ∷ ps) e h =
    rw (e, write_round)
      (
        drain-written (p ∷ ps) (record ch { queue = [] }),
        drain-queue (p ∷ ps) (record ch { queue = [] }),
      )

-- A round of the writing loop on a queue that is not empty writes every queued payload once, in
-- the order of the pushes, and leaves the queue empty.
pub write_round_empties :
    (ch : Channel)
    → ch.queue ≢ []
    → ((write_round ch).written ≡ ch.written ++ frames_of ch.queue) × ((write_round ch).queue ≡ [])
write_round_empties ch h = write_round_of ch ch.queue refl h

-- After the first `Close` of a channel whose event has not fired, a push is refused and queues
-- nothing.
pub push-close :
    (payload : Bytes) (ch : Channel)
    → ch.once_done ≡ false
    → ch.closed.is_done ≡ false
    → push payload (close ch) ≡ (refused, close ch)
unfolding push close fire has_fired
push-close payload ch h k = ground arith
