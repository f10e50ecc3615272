-- ===== src/AppServer/Consumer.antt =====
-- app/server/server.go: the consumer against the store, and the attempts of a retry.
use kupool.Common.{
  Option-cases, Text, Stamp, stamp_key, ℕ, zero, suc, ◌+◌, ◌%◌, ◌^◌, ◌≤◌, ◌<◌, ◌≡◌, refl, ◌≢◌, inl,
  inr, none, some, List, [], ◌∷◌, arith,
}
use kupool.State.{GoError, SubmitEvent}
use kupool.Memory.{MemoryStore, memory_stats_store, new_memory_store, increment, get}
use kupool.Memory.Counts.{increments, count, get-increments}
use kupool.AppServer.{
  ShutdownStatus, Signal, context_done, stop_consume, queue_closed, event, consume, retry,
}

-- The events that arrive before the consumer is told to end.
unfoldable pub taken : List Signal → List SubmitEvent
taken [] = []
taken (event evt ∷ rest) = evt ∷ taken rest
taken (context_done ∷ rest) = []
taken (stop_consume ∷ rest) = []
taken (queue_closed ∷ rest) = []

consume-increments :
    (l : List Signal) (s : MemoryStore) (st : ShutdownStatus)
    → consume memory_stats_store l (s, st) ≡ (increments (taken l) s, st)
unfolding consume increments taken increment
consume-increments [] s st = refl
consume-increments (event evt ∷ rest) s st =
    consume-increments rest (increment evt.username evt.time s).1 st
consume-increments (context_done ∷ rest) s st = refl
consume-increments (stop_consume ∷ rest) s st = refl
consume-increments (queue_closed ∷ rest) s st = refl

-- Over the memory store the consumer counts no error, and afterwards the store returns for each
-- user and minute the number of the events that arrived before the consumer ended, modulo 2^64.
pub consume_counts :
    (l : List Signal) (st : ShutdownStatus) (u : Text) (t : Stamp)
    → let r = consume memory_stats_store l (new_memory_store, st) in
      (get u t r.0 ≡ some (count u t (taken l) % 2 ^ 64)) × (r.1 ≡ st)
consume_counts l st u t =
    rw (consume-increments l new_memory_store st) (get-increments u t (taken l), refl)

-- `retry` succeeds if any of its `n` attempts does, and makes no attempt behind the first that
-- succeeds: if attempt `k` does, at most the attempts up to `k` are made.
pub retry_succeeds :
    (n : ℕ) (f : ℕ → GoError) (i k : ℕ) (e : GoError)
    → i ≤ k
    → k < i + n
    → f k ≡ none
    → ((retry n f i e).0 ≡ none) × ((retry n f i e).1 ≤ k + 1)
unfolding retry
retry_succeeds zero f i k e lo hi h = absurd (omega arith)
retry_succeeds (suc n) f i k e lo hi h = elim (Option-cases (f i)) [
  | inl now ↦ rw (now, retry) (refl, omega arith)
  | inr (x, later) ↦
      let other : i ≢ k = λ same. cc in
      rw (later, retry) (retry_succeeds n f (i + 1) k (some x) (omega arith) (omega arith) h)
]
