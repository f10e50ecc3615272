-- ===== src/Examples/Transport.antt =====
-- Tests of the channels and of both ends of a connection.
use kupool.Event.{has_fired, new_event}
use kupool.Channel.{Channel, blocked, panics, push, new_channel}
use kupool.Channel.Closing.{push_during, close-push}
use kupool.System.Lock.{
  broadcaster, reading, taken_out, reported, ended, Jam, ends_reading, here, next,
}
use kupool.System.Deadlock.{Reach-line_round}
use kupool.Channel.Writer.{Line, Move, pushing, writing_round, count_pushes, moves, line_round}
use kupool.Common.{
  codes, stamp_key, ◌≤◌, ◌<◌, ◌≡◌, refl, ◌≢◌, ◌↔◌, true, false, some, List, [], ◌∷◌, arith,
}
use kupool.Examples.Toys.{busy}

-- A connection that takes one of the two frames that wait.
abbrev failing : Line
failing = record { channel = busy; writing = true; takes = 1 }

abbrev five_pushes : List Move
five_pushes =
    pushing (3 ∷ [])
    ∷ pushing (4 ∷ [])
    ∷ writing_round
    ∷ pushing (5 ∷ [])
    ∷ pushing (6 ∷ [])
    ∷ pushing (7 ∷ [])
    ∷ []

abbrev full : Channel
full = record (new_channel (codes "c1")) { queue = [] ∷ [] ∷ [] ∷ [] ∷ [] ∷ [] }

-- A Push that waits for room when Close begins, and finds it when the queue is closed.
close-push_example :
    (push (3 ∷ []) full ≡ (blocked, full))
    × ((push_during 0 1 [] (3 ∷ []) full ≡ panics) ↔ ((0 < 2) × (1 ≤ 1)))
unfolding has_fired new_channel new_event push
close-push_example = (refl, (close-push (3 ∷ []) [] full 0 1 (omega arith) refl refl refl refl).1)

-- The broadcast is in a Push, and the reading loop is about to fail.
abbrev waiting : Jam
waiting = record {
  line = moves five_pushes (line_round failing);
  holder = broadcaster;
  pending = some (8 ∷ []);
  place = reading;
  served = 0;
}

abbrev taken : Jam
taken = record waiting { place = taken_out }

Reach-line_round_example :
    (taken.holder ≡ broadcaster)
    × (taken.pending ≡ some (8 ∷ []))
    × (taken.served ≡ 0)
    × (taken.place ≢ reported)
    × (taken.place ≢ ended)
    × (has_fired taken.line.channel.closed ≡ false)
unfolding count_pushes has_fired
Reach-line_round_example =
    Reach-line_round five_pushes (8 ∷ []) failing 0 taken refl refl refl (omega arith) (omega arith)
      (omega arith) (next here (ends_reading refl))
