-- ===== src/System/Delivery.antt =====
-- app/server/coordinator.go, tcp/server.go and channel.go: a job from a round of the loop to the
-- frames on the connection of a session.
use kupool.Common.{
  length, Text, nat_key, text_key, lookup, Bytes, hex_encode, ◌<◌, ◌≡◌, refl, sym, ap, ◌∙◌, ◌≢◌,
  false, some, List, [], ◌∷◌, ◌++◌, arith,
}
use mathlib.Core.List.{append_assoc}
use kupool.Frame.{op_binary}
use kupool.Protocol.{Codec}
use kupool.State.{Session, StateStore, World}
use kupool.Coordinator.{Draw, next_id, run}
use kupool.Event.{has_fired}
use kupool.Channel.{Channel, capacity, push, write_round}
use kupool.Channel.Delivery.{frames_of, write_round_empties}
use kupool.TcpServer.{TcpServer}
use kupool.System.Sessions.{IsKeyed}
use kupool.System.Broadcast.{replay, replay-run}

push-queue :
    (bytes : Bytes) (ch : Channel)
    → has_fired ch.closed ≡ false
    → ch.queue_closed ≡ false
    → length ch.queue < capacity
    → (push bytes ch).1 ≡ record ch { queue = ch.queue ++ bytes ∷ [] }
unfolding push
push-queue bytes ch opened unclosed room = ground (arith, opened, unclosed, room)

not_empty : (q : List Bytes) (b : Bytes) → q ++ b ∷ [] ≢ []
not_empty [] b = ground arith
not_empty (x ∷ xs) b = ground arith

frames_of-append :
    (q : List Bytes) (b : Bytes)
    → frames_of (q ++ b ∷ []) ≡ frames_of q ++ record { op_code = op_binary; payload = b } ∷ []
frames_of-append [] b = refl
frames_of-append (x ∷ xs) b =
    ap (◌∷◌ (record { op_code = op_binary; payload = x })) (frames_of-append xs b)

module _ {S : Type 0} (api : StateStore S) (codec : Codec) where
  -- Where every session stands under its own channel and no channel twice, and the channel of a
  -- session is open and has room: behind a round of the loop, a round of its writing loop puts the
  -- payloads that were queued on the connection, in order, and the new job behind them, each as one
  -- binary frame, and leaves the queue empty.
  pub run-write_round :
      (d : Draw) (w : World S) (srv : TcpServer) (k : Text) (s : Session) (ch : Channel)
      → IsKeyed w.coord.sessions
      → lookup k w.coord.sessions ≡ some s
      → lookup k (replay w.log srv).channels ≡ some ch
      → has_fired ch.closed ≡ false
      → ch.queue_closed ≡ false
      → length ch.queue < capacity
      → let job =
          codec.encode_broadcast
            (record { job_id = next_id w.coord.job_id; server_nonce = hex_encode d.buf }) in
        (ch' : Channel) × (lookup k (replay (run api codec d w).log srv).channels ≡ some ch')
        × ((write_round ch').written
            ≡ ch.written
              ++ frames_of ch.queue
              ++ record { op_code = op_binary; payload = job } ∷ [])
        × ((write_round ch').queue ≡ [])
  run-write_round d w srv k s ch keyed known there opened unclosed room =
      let job =
        codec.encode_broadcast
          (record { job_id = next_id w.coord.job_id; server_nonce = hex_encode d.buf }) in
      let ch' : Channel = record ch { queue = ch.queue ++ job ∷ [] } in
      let out = write_round_empties ch' (not_empty ch.queue job) in
      (
        ch',
        replay-run api codec d w srv k keyed
            ∙ rw (known, there) (ap some (push-queue job ch opened unclosed room)),
        out.0
            ∙ ap (◌++◌ ch.written) (frames_of-append ch.queue job)
            ∙ sym (append_assoc ch.written (frames_of ch.queue) _),
        out.1,
      )
