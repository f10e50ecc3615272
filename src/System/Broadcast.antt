-- ===== src/System/Broadcast.antt =====
-- app/server/coordinator.go over tcp/server.go: what a round of the loop puts on the channels.
use kupool.Common.{
  if◌then◌else◌, Option-cases, Text, text_beq, text_beq_iff, nat_key, text_key, Map, lookup,
  lookup-insert, Bytes, hex_encode, ◌≡◌, refl, inl, inr, Option, none, some, List, [], ◌∷◌, arith,
}
use kupool.Protocol.{Codec}
use kupool.State.{Session, StateStore, Effect, push, write_frame, publish, World}
use kupool.Coordinator.{Draw, next_id, push_all, rotate_job, broadcast_job, run}
use kupool.Channel.{Channel}
use kupool.Channel
use kupool.TcpServer.{TcpServer}
use kupool.TcpServer
use kupool.System.Sessions.{IsKeyed}

-- The server behind the pushes of a log, whose newest entry comes first.
unfoldable pub replay : List Effect → TcpServer → TcpServer
replay [] srv = srv
replay (push id bytes ∷ log) srv = (TcpServer.push id bytes (replay log srv)).1
replay (write_frame code bytes ∷ log) srv = replay log srv
replay (publish evt ∷ log) srv = replay log srv

abbrev pub sent : Bytes → Option Channel → Option Channel
sent bytes none = none
sent bytes (some ch) = some (Channel.push bytes ch).1

-- A channel of a registered session is sent the bytes, any other is left alone.
abbrev pub sent_if : Option Session → Bytes → Option Channel → Option Channel
sent_if none bytes ch = ch
sent_if (some s) bytes ch = sent bytes ch

pub lookup-push :
    (id k : Text) (bytes : Bytes) (srv : TcpServer)
    → lookup k (TcpServer.push id bytes srv).1.channels
      ≡ (if text_beq id k then sent bytes (lookup k srv.channels) else lookup k srv.channels)
unfolding TcpServer.push
lookup-push id k bytes srv = elim (Option-cases (lookup id srv.channels)) [
  | inl none_there ↦ ground (arith, none_there, text_beq_iff id k)
  | inr (ch, there) ↦
      ground
        (arith, there, text_beq_iff id k, lookup-insert id k (Channel.push bytes ch).1 srv.channels)
]

replay-push_all :
    (bytes : Bytes) (m : Map Text Session) (log : List Effect) (srv : TcpServer) (k : Text)
    → IsKeyed m
    → lookup k (replay (push_all bytes m log) srv).channels
      ≡ sent_if (lookup k m) bytes (lookup k (replay log srv).channels)
unfolding push_all replay lookup
replay-push_all bytes [] log srv k h = refl
replay-push_all bytes ((j, s) ∷ m) log srv k h =
    let rest = replay-push_all bytes m (push s.channel_id bytes ∷ log) srv k h.2 in
    ground
      (arith, rest, h.0, h.1, text_beq_iff j k, lookup-push s.channel_id k bytes (replay log srv))

module _ {S : Type 0} (api : StateStore S) (codec : Codec) where
  -- Where every session stands under its own channel and no channel twice, a round of the loop
  -- calls Push once on the channel of each session, with the new job, and touches no other channel
  -- of the server.
  pub replay-run :
      (d : Draw) (w : World S) (srv : TcpServer) (k : Text)
      → IsKeyed w.coord.sessions
      → lookup k (replay (run api codec d w).log srv).channels
        ≡ sent_if
            (lookup k w.coord.sessions)
            (codec.encode_broadcast
              (record { job_id = next_id w.coord.job_id; server_nonce = hex_encode d.buf }))
            (lookup k (replay w.log srv).channels)
  unfolding run rotate_job broadcast_job
  replay-run d w srv k h = replay-push_all _ w.coord.sessions w.log srv k h
