-- ===== src/System/Deadlock.antt =====
-- app/server/coordinator.go over channel.go: a broadcast that waits in its Push for ever.
use kupool.Common.{
  length, Bytes, ℕ, ◌≤◌, ◌<◌, ◌≡◌, refl, sym, ap, ◌≢◌, true, false, some, List, arith,
}
use kupool.Event.{has_fired}
use kupool.Channel.{Channel, Pushed, capacity, blocked}
use kupool.Channel.Closing.{send_payload}
use kupool.Channel.Writer.{
  Line, Move, moves, count_pushes, line_round, IsStuck, full_push, line_round-full,
}
use mathlib.Core.Path.{subst}
use kupool.System.Lock.{
  push_line, broadcaster, reading, reported, ended, Jam, Step, sends, writes, pushes, ends_reading,
  locks_reader, unlocks_reader, closes, locks, unlocks, Reach, here, next,
}

-- The broadcast waits for room that nobody makes.
pub record IsJammed (b : Bytes) (n : ℕ) (s : Jam) : Type 0 where
  pub stuck : IsStuck s.line
  pub full : capacity ≤ length s.line.channel.queue
  pub held : s.holder ≡ broadcaster
  pub waits : s.pending ≡ some b
  pub unreported : s.place ≢ reported
  pub unended : s.place ≢ ended
  pub unserved : s.served ≡ n

full_send :
    (b : Bytes) (l : Line)
    → IsStuck l
    → capacity ≤ length l.channel.queue
    → (send_payload b l.channel).0 ≡ blocked
unfolding send_payload
full_send b l h full = ground arith

still_round : (l : Line) → IsStuck l → line_round l ≡ l
unfolding line_round
still_round l h = rw h.0 refl

still_push :
    (b : Bytes) (l : Line) → IsStuck l → capacity ≤ length l.channel.queue → push_line b l ≡ l
still_push b l h full =
    ap (λ (r : Pushed × Channel). record l { channel = r.1 }) (full_push b l h full)

-- A broadcast that waits keeps the lock and its place.
on_line :
    {b : Bytes} {n : ℕ} (l : Line) (s : Jam)
    → l ≡ s.line
    → IsJammed b n s
    → IsJammed b n (record s { line = l })
on_line {b} {n} l s e h = subst (λ (x : Line). IsJammed b n (record s { line = x })) (sym e) h

Step-IsJammed : {b : Bytes} {n : ℕ} {s t : Jam} → Step s t → IsJammed b n s → IsJammed b n t
Step-IsJammed {b} {n} {s} (sends c e goes) h = absurd (goes (full_send c s.line h.stuck h.full))
Step-IsJammed {b} {n} {s} writes h = on_line _ s (still_round s.line h.stuck) h
Step-IsJammed {b} {n} {s} (pushes c) h = on_line _ s (still_push c s.line h.stuck h.full) h
Step-IsJammed (ends_reading e) h = record {
  stuck = h.stuck;
  full = h.full;
  held = h.held;
  waits = h.waits;
  unreported = λ e. cc;
  unended = λ e. cc;
  unserved = h.unserved;
}
Step-IsJammed (locks_reader e free) h = absurd (cc (free, h.held))
Step-IsJammed (unlocks_reader e) h = absurd (cc (e, h.held))
Step-IsJammed (closes e) h = absurd (h.unreported e)
Step-IsJammed (locks i free) h = absurd (cc (free, h.held))
Step-IsJammed (unlocks i e) h = absurd (cc (e, h.held))

Reach-IsJammed : {b : Bytes} {n : ℕ} {s t : Jam} → Reach s t → IsJammed b n s → IsJammed b n t
Reach-IsJammed here h = h
Reach-IsJammed (next r st) h = Step-IsJammed st (Reach-IsJammed r h)

-- When a write has failed on an open channel, and Push was called as often as its queue has places,
-- a broadcast that calls Push on the channel while its connection is still read keeps the lock for
-- ever: as long as the server is not shut down, in every state that the goroutines reach the
-- broadcast is still in that Push, no other handler has had the lock, and the goroutine of the
-- connection has not got past Disconnect, so that the channel is not closed.
pub Reach-line_round :
    (xs : List Move) (b : Bytes) (l : Line) (n : ℕ) (t : Jam)
    → l.writing ≡ true
    → has_fired l.channel.closed ≡ false
    → l.channel.queue_closed ≡ false
    → length l.channel.queue ≤ capacity
    → l.takes < length l.channel.queue
    → capacity ≤ count_pushes xs
    → Reach
        (record {
          line = moves xs (line_round l);
          holder = broadcaster;
          pending = some b;
          place = reading;
          served = n;
        })
        t
    → (t.holder ≡ broadcaster)
      × (t.pending ≡ some b)
      × (t.served ≡ n)
      × (t.place ≢ reported)
      × (t.place ≢ ended)
      × (has_fired t.line.channel.closed ≡ false)
Reach-line_round xs b l n t running open_event open_queue within fails enough run =
    let (stuck, full, written) =
      line_round-full xs l running open_event open_queue within fails enough in
    let h : IsJammed b n t = Reach-IsJammed run (record {
      stuck = stuck;
      full = full;
      held = refl;
      waits = refl;
      unreported = λ e. cc;
      unended = λ e. cc;
      unserved = refl;
    }) in
    (h.held, h.waits, h.unserved, h.unreported, h.unended, h.stuck.1)
