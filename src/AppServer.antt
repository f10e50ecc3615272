-- ===== src/AppServer.antt =====
-- app/server/server.go: the consumer of the queue, and the shutdown of the server.
pub mod Consumer
use kupool.Common.{
  if◌then◌else◌, Time, Duration, time_sub, ℕ, zero, suc, ◌+◌, ◌%◌, ◌^◌, Bool, true, false, none,
  some, List, [], ◌∷◌,
}
use kupool.State.{GoError, SubmitEvent, StatsStore}

pub record ShutdownStatus : Type 0 where
  pub start_at : Time
  pub end_at : Time
  pub mq_stopped : Bool
  pub mq_pending : ℕ
  pub mq_errors : ℕ
  pub store_closed : Bool
  pub server_closed : Bool
  pub duration : Duration

-- What wakes the consumer: the end of its context, `stopConsume`, an event, or a closed queue.
pub data Signal : Type 0 where
  context_done stop_consume queue_closed : Signal
  event : SubmitEvent → Signal

abbrev count_error : GoError → ShutdownStatus → ShutdownStatus
count_error none st = st
count_error (some e) st = record st { mq_errors = (st.mq_errors + 1) % 2 ^ 64 }

module _ {S : Type 0} (store : StatsStore S) where
  -- The loop of `Start`, over the signals in the order in which they arrive.
  unfoldable pub consume : List Signal → S × ShutdownStatus → S × ShutdownStatus
  consume [] w = w
  consume (context_done ∷ rest) w = w
  consume (stop_consume ∷ rest) w = w
  consume (queue_closed ∷ rest) w = w
  consume (event evt ∷ rest) (s, st) =
      let r = store.increment evt.username evt.time s in consume rest (r.1, count_error r.0 st)

-- `retry(n, backoff, f)`: the outcome of each call of `f`, as far as it is made; the number of
-- calls is counted.
unfoldable pub retry : ℕ → (ℕ → GoError) → ℕ → GoError → GoError × ℕ
retry zero f i e = (e, i)
retry (suc n) f i e = elim (f i) [ none ↦ (none, i + 1) | some x ↦ retry n f (i + 1) (some x) ]

abbrev flag_closed : GoError → Bool
flag_closed none = true
flag_closed (some e) = false

-- `Shutdown`, over the two readings of the clock, the outcomes of the attempts to close the queue
-- and the store, and the outcome of the server's own shutdown. The queue's outcome is only logged.
unfoldable pub shutdown : Time → Time → (ℕ → GoError) → GoError → ShutdownStatus → ShutdownStatus
shutdown start_at end_at close_store server st =
    let closed = retry 3 close_store 0 none in
    record st {
      start_at = start_at;
      end_at = end_at;
      mq_stopped = true;
      store_closed = if flag_closed closed.0 then true else st.store_closed;
      server_closed = if flag_closed server then true else st.server_closed;
      duration = time_sub end_at start_at;
    }
