-- ===== src/MemoryQueue/Order.antt =====
-- mq/memory.go: what a run of publishing and receiving goroutines sees of the queue.
use kupool.Common.{
  if◌then◌else◌, length, length-append, ℕ, ◌≤◌, ◌≡◌, refl, List, [], ◌∷◌, ◌++◌, arith,
}
use mathlib.Core.List.{append_assoc}
use kupool.State.{SubmitEvent}
use kupool.MemoryQueue.{
  MemoryQueue, Published, done, blocked, publish, Received, event, ended, waiting, receive, close,
  new_memory_queue,
}

-- One call on the queue: `Publish`, a receive on the channel of `Subscribe`, `Close`.
pub data Call : Type 0 where
  publish_call : SubmitEvent → Call
  receive_call close_call : Call

-- A run keeps the events that entered the buffer and those that left it, the oldest first.
pub record Run : Type 0 where
  pub queue : MemoryQueue
  pub entered : List SubmitEvent
  pub left : List SubmitEvent

-- An event enters when `Publish` returns on a queue that is open; on a closed one it is dropped.
abbrev note_publish : SubmitEvent → Published × MemoryQueue → Run → Run
note_publish evt (done, q) r = record {
  queue = q;
  entered = if r.queue.is_closed then r.entered else r.entered ++ evt ∷ [];
  left = r.left;
}
note_publish evt (blocked, q) r = record { queue = q; entered = r.entered; left = r.left }

abbrev note_receive : Received × MemoryQueue → Run → Run
note_receive (event evt, q) r = record { queue = q; entered = r.entered; left = r.left ++ evt ∷ [] }
note_receive (ended, q) r = record { queue = q; entered = r.entered; left = r.left }
note_receive (waiting, q) r = record { queue = q; entered = r.entered; left = r.left }

abbrev pub do_call : Call → Run → Run
do_call (publish_call evt) r = note_publish evt (publish evt r.queue) r
do_call receive_call r = note_receive (receive r.queue) r
do_call close_call r = record { queue = close r.queue; entered = r.entered; left = r.left }

abbrev pub do_calls : List Call → Run → Run
do_calls [] r = r
do_calls (c ∷ cs) r = do_calls cs (do_call c r)

abbrev pub new_run : ℕ → Run
new_run size = record { queue = new_memory_queue size; entered = []; left = [] }

abbrev IsOrdered : Run → Type 0
IsOrdered r = r.left ++ r.queue.buffered ≡ r.entered

receive-IsOrdered :
    (b : List SubmitEvent) (r : Run)
    → r.queue.buffered ≡ b
    → IsOrdered r
    → IsOrdered (do_call receive_call r)
unfolding receive
receive-IsOrdered [] r e h = ground arith
receive-IsOrdered (x ∷ xs) r e h = ground (arith, append_assoc r.left (x ∷ []) xs)

do_call-IsOrdered : (c : Call) (r : Run) → IsOrdered r → IsOrdered (do_call c r)
unfolding publish receive close
do_call-IsOrdered (publish_call evt) r h =
    ground (arith, append_assoc r.left r.queue.buffered (evt ∷ []))
do_call-IsOrdered receive_call r h = receive-IsOrdered r.queue.buffered r refl h
do_call-IsOrdered close_call r h = ground arith

do_calls-IsOrdered : (l : List Call) (r : Run) → IsOrdered r → IsOrdered (do_calls l r)
do_calls-IsOrdered [] r h = h
do_calls-IsOrdered (c ∷ cs) r h = do_calls-IsOrdered cs (do_call c r) (do_call-IsOrdered c r h)

-- In any run of calls on a new queue, the events that have left and then those that are still
-- buffered are the events that have entered, in order: none is lost, doubled or overtaken, before
-- or after Close.
pub do_calls-order :
    (size : ℕ) (l : List Call)
    → let r = do_calls l (new_run size) in r.left ++ r.queue.buffered ≡ r.entered
unfolding new_memory_queue
do_calls-order size l = do_calls-IsOrdered l (new_run size) (refl)

abbrev IsWithin : ℕ → MemoryQueue → Type 0
IsWithin size q = (q.size ≡ size) × (length q.buffered ≤ size)

do_call-IsWithin :
    (size : ℕ) (c : Call) (r : Run) → IsWithin size r.queue → IsWithin size (do_call c r).queue
unfolding publish receive close
do_call-IsWithin size (publish_call evt) r h =
    ground (arith, length-append r.queue.buffered (evt ∷ []))
do_call-IsWithin size receive_call r h = ground arith
do_call-IsWithin size close_call r h = ground arith

do_calls-IsWithin :
    (size : ℕ) (l : List Call) (r : Run)
    → IsWithin size r.queue
    → IsWithin size (do_calls l r).queue
do_calls-IsWithin size [] r h = h
do_calls-IsWithin size (c ∷ cs) r h =
    do_calls-IsWithin size cs (do_call c r) (do_call-IsWithin size c r h)

-- In any run of calls on a new queue of a size, at most that many events are buffered.
do_calls-bound :
    (size : ℕ) (l : List Call) → length (do_calls l (new_run size)).queue.buffered ≤ size
unfolding new_memory_queue
do_calls-bound size l = (do_calls-IsWithin size l (new_run size) (refl, omega arith)).1

-- A new queue of a size is a bounded first-in, first-out queue: in any run of calls the events that
-- have left and then those that are still buffered are the events that have entered, in order, and
-- at most as many as the size are buffered.
pub do_calls-fifo :
    (size : ℕ) (l : List Call)
    → let r = do_calls l (new_run size) in
      (r.left ++ r.queue.buffered ≡ r.entered) × (length r.queue.buffered ≤ size)
do_calls-fifo size l = (do_calls-order size l, do_calls-bound size l)
