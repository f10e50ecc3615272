-- ===== src/RabbitQueue.antt =====
-- mq/rabbitmq.go: the message queue over RabbitMQ. The calls of amqp091-go are the fields of
-- `Broker`, and the JSON of an event is a parameter.
pub mod Deliveries
use kupool.Common.{
  ltb, if◌then◌else◌, length, Text, Bytes, ℕ, Bool, true, false, Option, none, some, List, [], ◌∷◌,
  ◌++◌,
}
use kupool.State.{GoError, SubmitEvent}

-- What `Dial`, `Channel`, `QueueDeclare`, `PublishWithContext` and the two `Close` methods do to the
-- broker, in its states `B`.
pub record Broker (B : Type 0) : Type 0 where
  pub dial : Text → B → GoError × B
  pub channel : B → GoError × B
  pub queue_declare : Text → B → GoError × B
  pub publish : Text → Bytes → B → GoError × B
  pub close_channel : B → GoError × B
  pub close_conn : B → GoError × B

-- `Unmarshal` makes a new `time.Location` for an offset that is not the local one. The number is its
-- pointer, if it makes one: the same text decoded twice may give two locations.
pub record EventCodec : Type 0 where
  pub encode : SubmitEvent → Bytes
  pub decode : ℕ → Bytes → Option SubmitEvent

-- The body of a message, beside the number for a location that decoding it makes.
abbrev pub Delivery : Type 0
Delivery = ℕ × Bytes

-- What became of a delivery.
pub data Mark : Type 0 where
  acked nacked : Mark

-- `out` is the buffered channel of `Subscribe`; `marks` are those of the deliveries so far.
pub record RabbitQueue : Type 0 where
  pub queue : Text
  pub out : List SubmitEvent
  pub out_closed : Bool
  pub marks : List Mark

abbrev pub out_size : ℕ
out_size = 1024

abbrev opened : Text → RabbitQueue
opened queue = record { queue = queue; out = []; out_closed = false; marks = [] }

-- The consumer waits for room, or sends on a closed channel.
pub data Delivered : Type 0 where
  marked blocked panics : Delivered

unfoldable pub subscribe : RabbitQueue → List SubmitEvent
subscribe r = r.out

-- One round of the loop of `consume`, for an event that was decoded.
abbrev pub hand_over : SubmitEvent → RabbitQueue → Delivered × RabbitQueue
hand_over evt r =
    if r.out_closed
    then (panics, r)
    else if ltb (length r.out) out_size
    then (marked, record r { out = r.out ++ evt ∷ []; marks = r.marks ++ acked ∷ [] })
    else (blocked, r)

abbrev closed_queue : RabbitQueue → RabbitQueue
closed_queue r = record r { out_closed = true }

module _ (json : EventCodec) where
  unfoldable pub deliver : Delivery → RabbitQueue → Delivered × RabbitQueue
  deliver (n, body) r = elim (json.decode n body) [
    | none ↦ (marked, record r { marks = r.marks ++ nacked ∷ [] })
    | some evt ↦ hand_over evt r
  ]

  -- The loop of `consume` over the bodies of the deliveries, until it has to wait or panics.
  -- `none` is a `Consume` that fails, after which the channel is closed.
  unfoldable pub deliver_all : List Delivery → RabbitQueue → Delivered × RabbitQueue
  deliver_all [] r = (marked, r)
  deliver_all (b ∷ bs) r =
      let rest = deliver_all bs (deliver b r).1 in
      elim (deliver b r).0 [ marked ↦ rest | blocked ↦ (blocked, r) | panics ↦ (panics, r) ]

  unfoldable pub consume : Option (List Delivery) → RabbitQueue → Delivered × RabbitQueue
  consume none r = (marked, closed_queue r)
  consume (some bodies) r = deliver_all bodies r

  module _ {B : Type 0} (amqp : Broker B) where
    unfoldable pub new_rabbit : Text → Text → B → Option RabbitQueue × B
    new_rabbit url queue b =
        let dialed = amqp.dial url b in
        let channel = amqp.channel dialed.1 in
        let declared = amqp.queue_declare queue channel.1 in
        elim dialed.0 [
          | some e ↦ (none, dialed.1)
          | none ↦ elim channel.0 [
            | some e ↦ (none, channel.1)
            | none ↦ elim declared.0 [
              | some e ↦ (none, declared.1)
              | none ↦ (some (opened queue), declared.1)
            ]
          ]
        ]

    unfoldable pub publish : SubmitEvent → RabbitQueue → B → GoError × B
    publish evt r b = amqp.publish r.queue (json.encode evt) b

    -- `none` is the panic of closing a channel that is closed.
    unfoldable pub close : RabbitQueue → B → Option (GoError × RabbitQueue × B)
    close r b =
        if r.out_closed
        then none
        else let done = amqp.close_conn (amqp.close_channel b).1 in
          some (done.0, closed_queue r, done.1)
