-- ===== src/Channel.antt =====
-- channel.go: one connection behind a queue of pushed payloads. A step is one operation of one of
-- its goroutines; a payload leaves the queue in the order in which it came.
pub mod Delivery
pub mod Stream
pub mod Writer
pub mod Closing
use kupool.Common.{
  ltb, ◌==◌, if◌then◌else◌, length, Text, Bytes, pos, negsuc, Duration, ℕ, zero, suc, Bool, true,
  false, List, [], ◌∷◌, ◌++◌,
}
use kupool.Frame.{Frame, op_binary, op_close, op_ping, op_pong}
use kupool.Waits.{default_write_wait, default_read_wait}
use kupool.Event.{Event, new_event, fire, has_fired}

-- `make(chan []byte, 5)`, open or closed.
abbrev pub capacity : ℕ
capacity = 5

pub record Channel : Type 0 where
  pub id : Text
  pub queue : List Bytes
  pub queue_closed : Bool
  pub once_done : Bool
  pub write_wait : Duration
  pub read_wait : Duration
  pub closed : Event
  pub written : List Frame
  pub delivered : List Bytes

-- `DefaultWriteWait` and `DefaultReadWait`.
unfoldable pub new_channel : Text → Channel
new_channel id = record {
  id = id;
  queue = [];
  queue_closed = false;
  once_done = false;
  write_wait = default_write_wait;
  read_wait = default_read_wait;
  closed = new_event;
  written = [];
  delivered = [];
}

-- `blocked`: the caller waits for room. `panics`: a send on a closed channel.
pub data Pushed : Type 0 where
  queued refused blocked panics : Pushed

unfoldable pub push : Bytes → Channel → Pushed × Channel
push payload ch =
    if has_fired ch.closed
    then (refused, ch)
    else if ch.queue_closed
    then (panics, ch)
    else if ltb (length ch.queue) capacity
    then (queued, record ch { queue = ch.queue ++ payload ∷ [] })
    else (blocked, ch)

abbrev pub close_queue : Channel → Channel
close_queue ch = record ch { queue_closed = true }

abbrev pub fire_closed : Channel → Channel
fire_closed ch = record ch { closed = (fire ch.closed).1 }

-- The channel when so many of the two calls in `Close` have been made.
abbrev pub close_at : ℕ → Channel → Channel
close_at zero ch = ch
close_at (suc zero) ch = close_queue (record ch { once_done = true })
close_at (suc (suc n)) ch = fire_closed (close_queue (record ch { once_done = true }))

unfoldable pub close : Channel → Channel
close ch = if ch.once_done then ch else close_at 2 ch

abbrev is_zero_duration : Duration → Bool
is_zero_duration (pos n) = n == 0
is_zero_duration (negsuc n) = false

unfoldable pub set_write_wait : Duration → Channel → Channel
set_write_wait d ch = if is_zero_duration d then ch else record ch { write_wait = d }

unfoldable pub set_read_wait : Duration → Channel → Channel
set_read_wait d ch = if is_zero_duration d then ch else record ch { read_wait = d }

abbrev binary_frame : Bytes → Frame
binary_frame payload = record { op_code = op_binary; payload = payload }

-- `WriteFrame` on a connection that takes the frame.
unfoldable pub write_frame : Frame → Channel → Channel
write_frame f ch = record ch { written = ch.written ++ f ∷ [] }

-- The inner loop of `writeloop`: the payloads that were queued when it began.
unfoldable pub drain : List Bytes → Channel → Channel
drain [] ch = ch
drain (p ∷ ps) ch = drain ps (write_frame (binary_frame p) ch)

-- A round of `writeloop` that takes from the queue: the first payload, then all others that are
-- there. A closed queue that is empty yields nil, which is written as an empty frame.
unfoldable pub write_round : Channel → Channel
write_round ch = elim ch.queue [
  | [] ↦ if ch.queue_closed then write_frame (binary_frame []) ch else ch
  | p ∷ ps ↦ drain (p ∷ ps) (record ch { queue = [] })
]

-- Why `Readloop` ended.
pub data ReadEnd : Type 0 where
  read_failed remote_closed : ReadEnd

-- `Readloop` over the frames that the connection delivers before it fails. Each payload goes to
-- the listener in a goroutine of its own; the model delivers it at once.
unfoldable pub read_loop : List Frame → Channel → ReadEnd × Channel
read_loop [] ch = (read_failed, ch)
read_loop (f ∷ fs) ch =
    let on_ping = read_loop fs (write_frame (record { op_code = op_pong; payload = [] }) ch) in
    let on_empty = read_loop fs ch in
    let on_payload = read_loop fs (record ch { delivered = ch.delivered ++ f.payload ∷ [] }) in
    if f.op_code == op_close
    then (remote_closed, ch)
    else if f.op_code == op_ping
    then on_ping
    else elim f.payload [ [] ↦ on_empty | b ∷ bs ↦ on_payload ]
