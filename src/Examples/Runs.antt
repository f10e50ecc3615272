-- ===== src/Examples/Runs.antt =====
-- Tests of runs: of the server, of a session over time, of the memory queue, of a reading loop.
use kupool.Common.{
  text_beq, nat_key, text_key, contains, lookup, insert, codes, hex_encode, equal_fold, pos, second,
  time_sub, local, stamp_key, ◌+◌, ◌%◌, ◌^◌, ◌≤◌, ◌≡◌, refl, true, none, some, List, [], ◌∷◌, arith,
}
use kupool.Io.{Source, eof}
use kupool.Frame.{Frame, op_binary}
use kupool.State.{SubmitEvent}
use kupool.Submit.{
  submit, check_submit, select_job, limit_rate, is_too_soon, check_duplicate, check_result,
  expected_result, used_for, record_nonce,
}
use kupool.Submit.Replay.{Attempt, attempt, attempts}
use kupool.Submit.Pace.{attempts-pace}
use kupool.Listener.{handle_submit, announce, put_session}
use kupool.Memory.{new_memory_store, memory_state_store, memory_stats_store, get}
use kupool.Memory.Counts.{count}
use kupool.MemoryQueue.{new_memory_queue, publish, receive}
use kupool.MemoryQueue.Order.{Call, publish_call, receive_call, do_calls, new_run}
use kupool.AppServer.{consume}
use kupool.Memory.{MemoryStore}
use kupool.Channel.{new_channel, read_loop}
use kupool.Channel.Stream.{Parsed, read_stream, read_stream-ends}
use kupool.System.{Input, arrived, received, gone, ticked, serve_all, start}
use kupool.System.Sessions.{IsKeyed, IsValid}
use kupool.State.{World}
use kupool.Coordinator.{restore, run}
use kupool.System.Live.{has, live_all, serve_all-live}
use kupool.System.Invariant.{serve_all-start-IsValid}
use kupool.System.Pipeline.{Sent, published, signals, submit_all, accepted, submit_all-counts}
use kupool.Examples.Toys.{
  digest, submission, codec, worker, coordinator, world, first_attempt, draw, at_work, hello_stream,
}

abbrev inputs : List Input
inputs =
    arrived (some (record { op_code = op_binary; payload = [] })) (some (171 ∷ []))
    ∷ received (codes "ab") (1 ∷ []) 10 10
    ∷ ticked draw
    ∷ gone (codes "ab")
    ∷ []

abbrev arrivals : List Input
arrivals = arrived (some (record { op_code = op_binary; payload = [] })) (some (205 ∷ [])) ∷ []

abbrev opened : World MemoryStore
opened = start memory_state_store codec digest (pos 30) (pos 0) (pos 0) (some new_memory_store)

serve_all-start-IsValid_example :
    let early = serve_all memory_state_store codec digest arrivals opened in
    let loaded =
      serve_all memory_state_store codec digest arrivals
        (restore memory_state_store codec 40 early) in
    IsKeyed early.coord.sessions
    × IsKeyed loaded.coord.sessions
    × IsValid
        (serve_all memory_state_store codec digest inputs
          (run memory_state_store codec draw loaded)).coord
serve_all-start-IsValid_example =
    serve_all-start-IsValid memory_state_store codec digest (pos 30) (pos 0) (pos 0)
      (some new_memory_store) 40 draw arrivals arrivals inputs

serve_all-live_example :
    has memory_state_store codec digest
      (codes "c1")
      (serve_all memory_state_store codec digest inputs world)
    ≡ live_all memory_state_store codec digest (codes "c1") inputs true
unfolding lookup text_beq
serve_all-live_example = serve_all-live memory_state_store codec digest (codes "c1") inputs world

-- A second submission, five seconds behind the first.
abbrev second_attempt : Attempt
second_attempt = record {
  params = record { job_id = 2; client_nonce = 98 ∷ []; result = codes "05" };
  since = 5000000000;
  now = 5000000000;
}

accepted_first : (attempt digest coordinator first_attempt worker).0 ≡ none
unfolding submit check_submit select_job limit_rate is_too_soon check_duplicate check_result lookup
    equal_fold text_beq expected_result hex_encode
accepted_first = refl

accepted_second :
    (attempt digest coordinator second_attempt
      (attempts digest [] (attempt digest coordinator first_attempt worker).1)).0
    ≡ none
unfolding attempts submit check_submit select_job limit_rate is_too_soon check_duplicate
    check_result lookup equal_fold text_beq expected_result hex_encode record_nonce used_for insert
    contains time_sub
accepted_second = refl

attempts-pace_example : 10 + second ≤ 5000000000
attempts-pace_example =
    attempts-pace digest coordinator coordinator first_attempt second_attempt [] worker
      (omega arith) accepted_first accepted_second

abbrev evt : SubmitEvent
evt = record { username = codes "admin"; time = local 10 }

abbrev one_sent : List Sent
one_sent = record { channel_id = codes "c1"; params = submission; since = 10; now = 10 } ∷ []

abbrev passed_on : List Call
passed_on = publish_call evt ∷ receive_call ∷ []

entered_one :
    (do_calls passed_on (new_run 4)).entered
    ≡ published (submit_all memory_state_store codec digest one_sent world).log
unfolding publish receive new_memory_queue submit_all handle_submit announce put_session submit
    check_submit select_job limit_rate is_too_soon check_duplicate check_result lookup equal_fold
    text_beq expected_result hex_encode record_nonce used_for insert contains
entered_one = refl

emptied_one : (do_calls passed_on (new_run 4)).queue.buffered ≡ []
unfolding publish receive new_memory_queue
emptied_one = refl

submit_all-counts_example :
    get
      (codes "admin")
      (local 30)
      (consume memory_stats_store
        (signals (do_calls passed_on (new_run 4)).left)
        (new_memory_store, at_work)).0
    ≡ some (
        count (codes "admin") (local 30) (accepted memory_state_store codec digest one_sent world)
        % 2 ^ 64)
submit_all-counts_example =
    submit_all-counts memory_state_store codec digest one_sent world 4 passed_on at_work
      (codes "admin") (local 30) refl entered_one emptied_one

abbrev stream : Source
stream = record { bytes = hello_stream; fault = eof }

read_stream-ends_example :
    (fs : List Frame) × Parsed stream fs
    × (read_stream 20 stream (new_channel (codes "c1"))
        ≡ some (read_loop fs (new_channel (codes "c1"))))
read_stream-ends_example = read_stream-ends 20 stream (new_channel (codes "c1")) (omega arith)
