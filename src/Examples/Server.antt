-- ===== src/Examples/Server.antt =====
-- Tests of the coordinator, the memory store and the consumer.
use kupool.Memory.{MemoryStore}
use kupool.Frame.{Frame, op_binary}
use kupool.Acceptor.{Accepted}
use kupool.Acceptor
use kupool.System.Connection.{Schedule, Served}
use kupool.Submit.{
  submit, check_submit, select_job, limit_rate, is_too_soon, check_duplicate, check_result,
  expected_result,
}
use kupool.Listener.{handle_submit, disconnect}
use kupool.Acceptor.{open_session}
use kupool.System.Reconnect.{handle_submit-open_session}
use kupool.Examples.Toys.{digest, submission, worker, hub}
use kupool.Common.{
  text_beq, nat_key, text_key, lookup, codes, hex_encode, equal_fold, pos, ◌≡◌, refl, none, [], ◌∷◌,
  arith,
}
use kupool.State.{push}
use kupool.Coordinator.{new_coordinator, run, rotate_job, restore}
use kupool.Coordinator.Broadcast.{run_round}
use kupool.Memory.{new_memory_store, memory_state_store}
use kupool.Memory.Recovery.{restore-rotate_job}
use kupool.Examples.Toys.{codec, world, draw}

run_round_example :
    (run memory_state_store codec draw world).log ≡ push (codes "c1") (3 ∷ codes "ab") ∷ []
unfolding hex_encode
run_round_example = (run_round memory_state_store codec draw world (codes "c1") 3).3

restore-rotate_job_example :
    (restore memory_state_store codec 40 (record {
      coord = new_coordinator (pos 30) (pos 0) (pos 0);
      state = (rotate_job memory_state_store codec draw world).state;
      log = [];
    })).coord.job_id
    ≡ (rotate_job memory_state_store codec draw world).coord.job_id
restore-rotate_job_example =
    (restore-rotate_job codec draw world new_memory_store (new_coordinator (pos 30) (pos 0) (pos 0))
      40 refl (omega arith) (omega arith)).0

accepted_here :
    (handle_submit memory_state_store codec digest (codes "c1") submission 10 10 world).0 ≡ none
unfolding handle_submit submit check_submit select_job limit_rate is_too_soon check_duplicate
    check_result lookup equal_fold text_beq expected_result hex_encode
accepted_here = refl

handle_submit-open_session_example :
    (handle_submit memory_state_store codec digest (codes "c2") submission 5000000000 5000000000 (
      open_session memory_state_store codec (codes "c2") (codes "admin") (
        disconnect memory_state_store codec digest
          (codes "c1")
          (handle_submit memory_state_store codec digest (codes "c1") submission 10 10 world).1))).0
    ≡ none
unfolding lookup text_beq
handle_submit-open_session_example =
    handle_submit-open_session codec digest (codes "c1") (codes "c2") submission 10 10 5000000000
      5000000000 world worker new_memory_store refl refl refl accepted_here (omega arith)

abbrev opening : Frame
opening = record { op_code = op_binary; payload = [] }

abbrev in_order : Schedule
in_order = record { order = λ ps. (ps, []); clock = λ i. (10, 10) }

abbrev served : Served MemoryStore
served = record { world = world; server = hub }
