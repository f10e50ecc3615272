-- ===== src/System/Missed.antt =====
-- app/server/acceptor.go and coordinator.go over tcp/server.go: a round between Accept, which
-- registers the session, and the entry of its channel in the map.
use kupool.Common.{
  Text, nat_key, text_key, lookup, hex_encode, Duration, ◌≡◌, refl, ap, ◌∙◌, Option, none, some, [],
  arith,
}
use kupool.Frame.{Frame}
use kupool.Protocol.{Codec}
use kupool.State.{Session, StateStore, World}
use kupool.Coordinator.{Draw, next_id, run}
use kupool.Coordinator.Broadcast.{told, run_round}
use kupool.Channel.{Channel, new_channel, set_read_wait, set_write_wait}
use kupool.TcpServer.{TcpServer, accepted, enter}
use kupool.TcpServer.Channels.{configured, configured-id, enter-free, lookup-add}
use kupool.System.Sessions.{IsKeyed}
use kupool.System.Broadcast.{replay, replay-run}

configured_silent :
    (w r : Duration) (id : Text)
    → ((configured w r id).queue ≡ []) × ((configured w r id).written ≡ [])
unfolding set_write_wait set_read_wait new_channel
configured_silent w r id = (ground arith, ground arith)

module _ {S : Type 0} (api : StateStore S) (codec : Codec) where
  -- A session is registered before its channel enters the map. Where every session stands under its
  -- own channel and no channel twice: if a round of the loop comes in between, the session is told of
  -- the new job, but nothing is queued or written on its channel when that enters, so the client does
  -- not learn of the job by which its submissions are judged.
  pub run-enter_missed :
      (d : Draw) (w : World S) (srv : TcpServer) (k : Text) (s : Session)
      → IsKeyed w.coord.sessions
      → lookup k w.coord.sessions ≡ some s
      → lookup k (replay w.log srv).channels ≡ none
      → let w' = run api codec d w in
        (ch : Channel) × (lookup k w'.coord.sessions
          ≡ some (record s {
            latest_job_id = next_id w.coord.job_id;
            latest_server_nonce = hex_encode d.buf;
          }))
        × (lookup k (enter (accepted k) (replay w'.log srv)).1.channels ≡ some ch)
        × (ch.queue ≡ [])
        × (ch.written ≡ [])
  run-enter_missed d w srv k s keyed known away =
      let srv' = replay (run api codec d w).log srv in
      let still : lookup k srv'.channels ≡ none =
        replay-run api codec d w srv k keyed ∙ rw (known, away) refl in
      let ch = configured srv'.options.write_wait srv'.options.read_wait k in
      let silent = configured_silent srv'.options.write_wait srv'.options.read_wait k in
      (
        ch,
        (run_round api codec d w k 0).1
            ∙ ap (told (next_id w.coord.job_id) (hex_encode d.buf)) known,
        ap (λ (x : Option Frame × TcpServer). lookup k x.1.channels) (enter-free k srv' still)
            ∙ lookup-add k ch srv'.channels
                (configured-id srv'.options.write_wait srv'.options.read_wait k),
        silent.0,
        silent.1,
      )
