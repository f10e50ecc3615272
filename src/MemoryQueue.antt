-- ===== src/MemoryQueue.antt =====
-- mq/memory.go: the message queue of the memory back end, a buffered Go channel.
pub mod Order
use kupool.Common.{ltb, if◌then◌else◌, length, ℕ, Bool, true, false, List, [], ◌∷◌, ◌++◌}
use kupool.State.{SubmitEvent}

pub record MemoryQueue : Type 0 where
  pub size : ℕ
  pub buffered : List SubmitEvent
  pub once_done : Bool
  pub is_closed : Bool

unfoldable pub new_memory_queue : ℕ → MemoryQueue
new_memory_queue size = record { size = size; buffered = []; once_done = false; is_closed = false }

-- `blocked`: the caller waits until the buffer has room.
pub data Published : Type 0 where
  done blocked : Published

unfoldable pub publish : SubmitEvent → MemoryQueue → Published × MemoryQueue
publish evt q =
    if q.is_closed
    then (done, q)
    else if ltb (length q.buffered) q.size
    then (done, record q { buffered = q.buffered ++ evt ∷ [] })
    else (blocked, q)

-- A receive on the channel of `Subscribe`: an event, the end of a closed channel, or a wait.
pub data Received : Type 0 where
  event : SubmitEvent → Received
  ended waiting : Received

unfoldable pub receive : MemoryQueue → Received × MemoryQueue
receive q = elim q.buffered [
  | [] ↦ (if q.is_closed then ended else waiting, q)
  | evt ∷ rest ↦ (event evt, record q { buffered = rest })
]

unfoldable pub close : MemoryQueue → MemoryQueue
close q = if q.once_done then q else record q { once_done = true; is_closed = true }
