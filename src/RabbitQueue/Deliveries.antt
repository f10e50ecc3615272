-- ===== src/RabbitQueue/Deliveries.antt =====
-- mq/rabbitmq.go, consume: what the deliveries become.
use kupool.Common.{
  Option-cases, length, length-append, ◌+◌, ◌≤◌, ◌≡◌, refl, sym, inl, inr, true, false, none, some,
  List, [], ◌∷◌, ◌++◌, arith,
}
use mathlib.Core.List.{append_assoc, append-nil}
use kupool.State.{SubmitEvent}
use kupool.RabbitQueue.{
  Delivery, EventCodec, Mark, acked, nacked, RabbitQueue, out_size, marked, panics, deliver,
  deliver_all,
}

module _ (json : EventCodec) where
  -- The events that the bodies hold, and the mark of each body.
  unfoldable pub decoded : List Delivery → List SubmitEvent
  decoded [] = []
  decoded (b ∷ bs) = elim (json.decode b.0 b.1) [ none ↦ decoded bs | some evt ↦ evt ∷ decoded bs ]

  unfoldable pub marks_of : List Delivery → List Mark
  marks_of [] = []
  marks_of (b ∷ bs) = elim (json.decode b.0 b.1) [ none ↦ nacked | some evt ↦ acked ] ∷ marks_of bs

  -- While the queue is open and has room for all events of the bodies, every body is marked once
  -- and in order, acknowledged if it decodes and refused if not, and the events of the bodies that
  -- decode are handed on in order.
  pub deliver_all-decoded :
      (bs : List Delivery) (r : RabbitQueue)
      → r.out_closed ≡ false
      → length r.out + length (decoded bs) ≤ out_size
      → ((deliver_all json bs r).0 ≡ marked)
        × ((deliver_all json bs r).1.out ≡ r.out ++ decoded bs)
        × ((deliver_all json bs r).1.marks ≡ r.marks ++ marks_of bs)
  unfolding deliver_all deliver decoded marks_of
  deliver_all-decoded [] r live room = (refl, sym (append-nil r.out), sym (append-nil r.marks))
  deliver_all-decoded (b ∷ bs) r live room = elim (Option-cases (json.decode b.0 b.1)) [
    | inl e ↦
        let r' : RabbitQueue = record r { marks = r.marks ++ nacked ∷ [] } in
        let room' : length r.out + length (decoded bs) ≤ out_size = ground (arith, e, room) in
        let (ok, handed, marks) = deliver_all-decoded bs r' live room' in
        ground (arith, e, ok, handed, marks, append_assoc r.marks (nacked ∷ []) (marks_of bs))
    | inr (evt, e) ↦
        let r' : RabbitQueue = record r {
          out = r.out ++ evt ∷ [];
          marks = r.marks ++ acked ∷ [];
        } in
        let room' : length (r.out ++ evt ∷ []) + length (decoded bs) ≤ out_size =
          ground (arith, e, room, length-append r.out (evt ∷ [])) in
        let (ok, handed, marks) = deliver_all-decoded bs r' live room' in
        ground (
          arith,
          e,
          live,
          room,
          ok,
          handed,
          marks,
          append_assoc r.out (evt ∷ []) (decoded bs),
          append_assoc r.marks (acked ∷ []) (marks_of bs),
        )
  ]

  -- After Close a delivery that decodes panics.
  pub deliver_closed :
      (b : Delivery) (evt : SubmitEvent) (r : RabbitQueue)
      → json.decode b.0 b.1 ≡ some evt
      → r.out_closed ≡ true
      → (deliver json b r).0 ≡ panics
  unfolding deliver
  deliver_closed b evt r e closed = ground arith
