-- ===== src/System/Durable.antt =====
-- mq/rabbitmq.go and app/server/server.go: deliveries that are acknowledged and events that are
-- stored.
use kupool.Common.{
  length, take, drop, Text, Stamp, ℕ, ◌%◌, ◌^◌, ◌≤◌, ◌≡◌, refl, ap, ◌∙◌, false, some, List, [], ◌∷◌,
  ◌++◌, arith,
}
use kupool.State.{SubmitEvent}
use kupool.RabbitQueue.{Delivery, EventCodec, RabbitQueue, out_size, marked, deliver_all}
use kupool.RabbitQueue.Deliveries.{decoded, marks_of, deliver_all-decoded}
use kupool.Memory.{memory_stats_store, new_memory_store, get}
use kupool.Memory.Counts.{count}
use kupool.AppServer.{ShutdownStatus, Signal, stop_consume, consume}
use kupool.AppServer.Consumer.{taken, consume_counts}
use kupool.System.Pipeline.{signals}

taken-stopped :
    (evts : List SubmitEvent) (rest : List Signal)
    → taken (signals evts ++ stop_consume ∷ rest) ≡ evts
unfolding taken signals
taken-stopped [] rest = refl
taken-stopped (evt ∷ evts) rest = ap (◌∷◌ evt) (taken-stopped evts rest)

module _ (json : EventCodec) where
  -- While the queue is open, empty at first, and has room for all events of the deliveries: every
  -- delivery is marked once and in order, acknowledged if it decodes and refused if not; and if the
  -- consumer is told to stop behind the first `n` events, a new memory store has counted those and no
  -- other, each under the minute and the location that it was decoded with, though all are
  -- acknowledged.
  pub deliver_all-consume :
      (bs : List Delivery) (r : RabbitQueue) (n : ℕ) (st : ShutdownStatus) (u : Text) (t : Stamp)
      → r.out_closed ≡ false
      → r.out ≡ []
      → length (decoded json bs) ≤ out_size
      → let d = deliver_all json bs r in
        let left = signals (take n d.1.out) ++ stop_consume ∷ signals (drop n d.1.out) in
        (d.0 ≡ marked)
        × (d.1.marks ≡ r.marks ++ marks_of json bs)
        × (get u t (consume memory_stats_store left (new_memory_store, st)).0
            ≡ some (count u t (take n (decoded json bs)) % 2 ^ 64))
  deliver_all-consume bs r n st u t live empty room =
      let d = deliver_all json bs r in
      let (ok, handed, marks) =
        deliver_all-decoded json bs r live (rw empty (omega (arith, room))) in
      let out : d.1.out ≡ decoded json bs = handed ∙ ap (λ l. l ++ decoded json bs) empty in
      let left = signals (take n d.1.out) ++ stop_consume ∷ signals (drop n d.1.out) in
      (
        ok,
        marks,
        (consume_counts left st u t).0
            ∙ ap (λ l. some (count u t l % 2 ^ 64))
                (taken-stopped (take n d.1.out) (signals (drop n d.1.out)) ∙ ap (take n) out),
      )
