-- ===== src/Examples/Messages.antt =====
-- The exchanges of a client and the server over encoded messages.
use kupool.TcpServer.{accepted, enter, new_server}
use kupool.System.Missed.{run-enter_missed}
use kupool.Common.{
  All, Text, text_beq, nat_key, text_key, lookup, Bytes, IsByte, codes, hex_encode, local,
  stamp_key, ◌%◌, ◌^◌, ◌≡◌, refl, inl, true, false, none, some, List, [], ◌∷◌, ◌++◌, arith,
}
use kupool.Protocol.{JobParams}
use kupool.Client.{new_client, Turn, authorize_frame}
use kupool.Event.{has_fired}
use kupool.Channel.{Channel, write_round}
use kupool.Channel.Delivery.{frames_of}
use kupool.Memory.{get}
use kupool.Memory.Counts.{increments}
use kupool.System.Broadcast.{replay}
use kupool.System.Delivery.{run-write_round}
use kupool.System.Pipeline.{published}
use kupool.System.Mining.{Round, Mine, play_all}
use kupool.System.Rounds.{rounds_in, accept-play_all}
use kupool.System.Hasty.{run-receive_hasty}
use kupool.Coordinator.{next_id, run}
use kupool.Listener.{receive}
use kupool.State.{push}
use kupool.Client.{on_frame}
use kupool.Client.Honest.{binary, submission}
use kupool.System.Play.{holding, Plays}
use kupool.System.Debut.{accept-run-receive}
use kupool.Memory.{MemoryStore, memory_state_store, load_user_state, new_memory_store}
use kupool.State.{World, write_frame}
use kupool.Frame.{op_binary}
use kupool.Acceptor.{Accepted, ok, accept}
use kupool.Examples.Plain.{plain, plain-IsFaithful, put_response}
use kupool.Examples.Toys.{hub, busy, coordinator, digest, worker, world, draw, miner}

digests : (b : Bytes) → All IsByte (digest b)
digests b = (omega arith, tt)

abbrev turn : Turn
turn = record { buf = 97 ∷ []; sent_at = 41 }

abbrev admitted : Accepted Text × World MemoryStore
admitted =
    accept memory_state_store plain (some (authorize_frame plain digest (codes "admin")))
      (some (171 ∷ [])) world

accept-run-receive_example :
    (admitted.0 ≡ ok (hex_encode (171 ∷ [])))
    × (admitted.1.log
        ≡ write_frame op_binary (put_response (record { id = 1; result = true; error = none }))
          ∷ world.log)
    × Plays plain digest memory_state_store draw admitted.1
        (hex_encode (171 ∷ []))
        (codes "admin")
        (new_client (codes "admin"))
        turn
        turn
        40
        40
unfolding load_user_state lookup new_memory_store
accept-run-receive_example =
    accept-run-receive plain plain-IsFaithful digest memory_state_store digests (codes "admin")
      (171 ∷ []) draw world turn turn 40 40 (grind arith) (ground arith) (omega arith, tt)
      (omega arith, tt) (inl refl)

abbrev just_accepted : World MemoryStore
just_accepted = record world {
  coord = record coordinator {
    sessions = (codes "c1", record worker { last_submit_at = 30 }) ∷ [];
  };
}

abbrev job_three : JobParams
job_three = record { job_id = 3; server_nonce = hex_encode (171 ∷ []) }

abbrev hasty_submission : Bytes
hasty_submission = submission plain digest (holding plain digest job_three miner) turn

abbrev after_hasty : World MemoryStore
after_hasty =
    receive memory_state_store plain digest (codes "c1") hasty_submission 40 40
      (run memory_state_store plain draw just_accepted)

run-receive_hasty_example :
    ((on_frame plain digest (binary (plain.encode_broadcast job_three)) turn miner).sent
      ≡ binary hasty_submission ∷ [])
    × (after_hasty.log
        ≡ push (codes "c1") (
            put_response
              (record { id = 5; result = false; error = some (codes "Submission too frequent") }))
          ∷ (run memory_state_store plain draw just_accepted).log)
    × (after_hasty.state ≡ (run memory_state_store plain draw just_accepted).state)
unfolding lookup text_beq
run-receive_hasty_example =
    run-receive_hasty plain plain-IsFaithful digest memory_state_store digests draw just_accepted
      (codes "c1") (record worker { last_submit_at = 30 }) miner turn 40 40 refl (omega arith, tt)
      (omega arith, tt) (omega arith) (ground arith, omega arith)

abbrev two_rounds : List Round
two_rounds =
    record { draw = draw; turn = turn; since = 40; now = 40 }
    ∷ record { draw = draw; turn = turn; since = 61000000000; now = 61000000000 }
    ∷ []

abbrev mine : Mine MemoryStore
mine = record { world = admitted.1; client = new_client (codes "admin") }

abbrev mined : Mine MemoryStore
mined = play_all plain digest memory_state_store (hex_encode (171 ∷ [])) two_rounds mine

accept-play_all_example :
    (admitted.0 ≡ ok (hex_encode (171 ∷ [])))
    × (get (codes "admin") (local 50) (increments (published mined.world.log) new_memory_store)
        ≡ some (rounds_in 50 two_rounds % 2 ^ 64))
unfolding load_user_state lookup new_memory_store
accept-play_all_example =
    accept-play_all plain plain-IsFaithful digest digests memory_state_store (codes "admin")
      (171 ∷ []) world 0 two_rounds (local 50) (grind arith) (ground arith) (inl refl) refl
      (omega arith, (omega arith, tt))
      (((omega arith, tt), (omega arith, tt)), (((omega arith, tt), (omega arith, tt)), tt))
      (omega arith) (omega arith)

run-write_round_example :
    (ch : Channel) × (lookup
        (codes "c1")
        (replay (run memory_state_store plain draw world).log hub).channels
      ≡ some ch)
    × ((write_round ch).written
        ≡ busy.written ++ frames_of busy.queue ++ binary (plain.encode_broadcast job_three) ∷ [])
    × ((write_round ch).queue ≡ [])
unfolding lookup text_beq replay has_fired
run-write_round_example =
    run-write_round memory_state_store plain draw world hub (codes "c1") worker busy
      (refl, refl, tt) refl refl refl refl (omega arith)

run-enter_missed_example :
    (ch : Channel) × (lookup (codes "c1") (run memory_state_store plain draw world).coord.sessions
      ≡ some (record worker {
        latest_job_id = next_id world.coord.job_id;
        latest_server_nonce = hex_encode draw.buf;
      }))
    × (lookup
          (codes "c1")
          (enter
            (accepted (codes "c1"))
            (replay (run memory_state_store plain draw world).log new_server)).1.channels
        ≡ some ch)
    × (ch.queue ≡ [])
    × (ch.written ≡ [])
unfolding lookup text_beq replay new_server
run-enter_missed_example =
    run-enter_missed memory_state_store plain draw world new_server (codes "c1") worker
      (refl, refl, tt) refl refl
