-- ===== src/Examples/Clients.antt =====
-- Tests of the client program, the demonstration and what runs in between two phases.
use kupool.Common.{
  Text, text_beq, nat_key, text_key, contains, lookup, Bytes, codes, hex_encode, equal_fold,
  stamp_key, ℕ, ◌+◌, ◌≡◌, refl, ◌≢◌, ◌↔◌, Bool, true, false, Option, none, some, List, [], ◌∷◌,
  ◌++◌, arith,
}
use kupool.State.{World, JobRecord}
use kupool.System.Sessions.{IsValid}
use kupool.System.Alike.{AlikeWorld, times_written}
use mathlib.Core.Quot
use kupool.Frame.{Frame, op_binary}
use kupool.Acceptor.{Accepted, ok, handshake}
use kupool.System.{arrived}
use kupool.System.View.{View, serve_view, serve_view_comm, view_written, welcome}
use kupool.System.Order.{serve_all-AlikeWorld}
use kupool.Coordinator.Phases.{Snapshot, take_snapshot, finish_broadcast}
use kupool.Coordinator.Broadcast.{told, pushes}
use kupool.Submit.{expected_result, used_for}
use kupool.Submit.Decision.{IsRested}
use kupool.Submit.Race.{check_across, check_across_iff}
use kupool.System.{Input, received, serve_all}
use kupool.System.Between.{serve_all-finish_broadcast}
use kupool.Client.{Turn}
use kupool.Client
use kupool.Client.Program.{Event, looped, beat, closing}
use kupool.TcpClient.{Dialed, dialed}
use kupool.Memory.{MemoryStore, memory_state_store}
use kupool.Examples.Toys.{digest, codec, coordinator, worker, world, submission}

abbrev one_in_between : List Input
one_in_between = received (codes "c1") (1 ∷ []) 10 10 ∷ []

abbrev taken : Snapshot
taken = take_snapshot world

abbrev in_between : World MemoryStore
in_between = serve_all memory_state_store codec digest one_in_between world

abbrev told_all : World MemoryStore
told_all = finish_broadcast codec taken in_between

serve_all-finish_broadcast_example :
    (told_all.coord.job_id ≡ taken.job_id)
    × (told_all.coord.server_nonce ≡ taken.server_nonce)
    × (lookup (codes "c1") told_all.coord.sessions
        ≡ elim (lookup (codes "c1") world.coord.sessions) [
          | none ↦ lookup (codes "c1") in_between.coord.sessions
          | some old ↦
              told taken.job_id taken.server_nonce (lookup (codes "c1") in_between.coord.sessions)
        ])
    × (told_all.log
        ≡ pushes
            (codec.encode_broadcast
              (record { job_id = taken.job_id; server_nonce = taken.server_nonce }))
            world.coord.sessions
          ++ in_between.log)
serve_all-finish_broadcast_example =
    serve_all-finish_broadcast memory_state_store codec digest one_in_between world (codes "c1")
      (tt, tt)

check_across_iff_example :
    ((check_across digest coordinator submission 10 10 3 (codes "abcdef") worker).0 ≡ none) ↔ (
      IsRested worker 10
      × (contains (97 ∷ []) (used_for 2 worker) ≡ false)
      × (equal_fold (expected_result digest (codes "abcdef") (97 ∷ [])) (codes "05") ≡ true))
check_across_iff_example =
    check_across_iff digest coordinator submission 10 10 3 (codes "abcdef") worker refl

-- A digest of another length: the right submission for the old job is refused.
torn_refused : (check_across digest coordinator submission 10 10 3 (codes "abcdef") worker).0 ≢ none
unfolding equal_fold expected_result hex_encode text_beq
torn_refused h = absurd (ground (arith, (check_across_iff_example.0 h).2))

abbrev all_parse : Text → Bool
all_parse addr = true

abbrev all_dial : Text → Dialed
all_dial addr = dialed

abbrev turn : Turn
turn = record { buf = 97 ∷ []; sent_at = 41 }

-- The loop has no job yet, the heartbeat beats, and the signal comes.
abbrev miner_events : List Event
miner_events =
    looped (Client.second_tick 40 turn) true true
    ∷ beat true true
    ∷ closing
    ∷ looped Client.done true true
    ∷ []

-- The same history in two orders.
abbrev first_job : JobRecord
first_job = record { nonce = 120 ∷ []; created_at = 5 }

abbrev second_job : JobRecord
second_job = record { nonce = codes "abcd"; created_at = 6 }

abbrev one_order : World MemoryStore
one_order = record world {
  coord = record coordinator { history = (1, first_job) ∷ (2, second_job) ∷ [] };
}

abbrev other_order : World MemoryStore
other_order = record world {
  coord = record coordinator { history = (2, second_job) ∷ (1, first_job) ∷ [] };
}

one_order-IsValid : IsValid one_order.coord
unfolding lookup
one_order-IsValid = record { is_keyed = (refl, refl, tt); is_current = (second_job, refl, refl) }

other_order-IsValid : IsValid other_order.coord
unfolding lookup
other_order-IsValid = record { is_keyed = (refl, refl, tt); is_current = (second_job, refl, refl) }

orders-AlikeWorld : AlikeWorld one_order other_order
unfolding lookup
orders-AlikeWorld = record {
  coord = record {
    sessions = λ k. refl;
    history = λ j. ground arith;
    job_id = refl;
    server_nonce = refl;
    expire_after = refl;
    nonce_interval = refl;
    history_window = refl;
  };
  state = refl;
  log = record { published = refl; pushed = λ k. refl; written = λ c b. refl };
}

serve_all-AlikeWorld_example :
    AlikeWorld
      (serve_all memory_state_store codec digest one_in_between one_order)
      (serve_all memory_state_store codec digest one_in_between other_order)
serve_all-AlikeWorld_example =
    serve_all-AlikeWorld memory_state_store codec digest one_in_between one_order other_order
      one_order-IsValid other_order-IsValid orders-AlikeWorld

abbrev first_frame : Option Frame
first_frame = some (record { op_code = op_binary; payload = [] })

abbrev one_handshake : Accepted (ℕ × Text × Text)
one_handshake = handshake memory_state_store codec first_frame (some (171 ∷ []))

abbrev other_handshake : Accepted (ℕ × Text × Text)
other_handshake = handshake memory_state_store codec first_frame (some (172 ∷ []))

one_accepted : one_handshake ≡ ok (1, codes "admin", codes "ab")
unfolding handshake hex_encode text_beq
one_accepted = refl

other_accepted : other_handshake ≡ ok (1, codes "admin", codes "ac")
unfolding handshake hex_encode text_beq
other_accepted = refl

abbrev view : View MemoryStore
view = Quot.mk (one_order, one_order-IsValid)

abbrev viewed : View MemoryStore
viewed =
    serve_view memory_state_store codec digest (arrived first_frame (some (171 ∷ [])))
      (serve_view memory_state_store codec digest (arrived first_frame (some (172 ∷ []))) view)

serve_view_comm_example :
    (viewed
      ≡ serve_view memory_state_store codec digest
          (arrived first_frame (some (172 ∷ [])))
          (serve_view memory_state_store codec digest (arrived first_frame (some (171 ∷ []))) view))
    × ((code : ℕ) (bytes : Bytes)
        → view_written memory_state_store codec digest code bytes viewed
          ≡ times_written code bytes (
              welcome memory_state_store codec digest 1
              ∷ welcome memory_state_store codec digest 1
              ∷ [])
            + view_written memory_state_store codec digest code bytes view)
unfolding text_beq
serve_view_comm_example =
    serve_view_comm memory_state_store codec digest first_frame first_frame (some (171 ∷ []))
      (some (172 ∷ [])) 1 1 (codes "ab") (codes "admin") (codes "ac") (codes "admin") one_accepted
      other_accepted refl view
