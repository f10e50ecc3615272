-- ===== src/System/Lock.antt =====
-- app/server/coordinator.go, tcp/server.go and channel.go: who waits for the coordinator's lock and
-- for room in the queue of one channel, while a broadcast is in its Push.
use kupool.Common.{Bytes, ℕ, ◌+◌, ◌≡◌, ◌≢◌, Option, none, some}
use kupool.Channel.{blocked, push, close}
use kupool.Channel.Closing.{send_payload}
use kupool.Channel.Writer.{Line, line_round}

-- Who holds the lock: a broadcast (coordinator.go, line 95), the goroutine of the connection
-- (Disconnect) or another handler.
pub data Holder : Type 0 where
  nobody broadcaster reader : Holder
  handler : ℕ → Holder

-- Where the goroutine of the connection is: in its reading loop, before Disconnect, before Close
-- (lines 100, 105 and 106 of tcp/server.go), or at its end.
pub data Place : Type 0 where
  reading taken_out reported ended : Place

-- `pending` is the payload of the Push that the broadcast is in, which has passed its test. `served`
-- counts how often another handler has had the lock.
pub record Jam : Type 0 where
  pub line : Line
  pub holder : Holder
  pub pending : Option Bytes
  pub place : Place
  pub served : ℕ

abbrev pub close_line : Line → Line
close_line l = record l { channel = close l.channel }

abbrev pub push_line : Bytes → Line → Line
push_line b l = record l { channel = (push b l.channel).1 }

abbrev pub sent_line : Bytes → Line → Line
sent_line b l = record l { channel = (send_payload b l.channel).1 }

-- `sends`: the Push of the broadcast ends, and with the last session the broadcast. Other goroutines
-- push on the channel with no lock.
pub data Step (s : Jam) : Jam → Type 0 where
  sends :
      (b : Bytes)
      → s.pending ≡ some b
      → (send_payload b s.line.channel).0 ≢ blocked
      → Step s (record s { line = sent_line b s.line; pending = none; holder = nobody })
  writes : Step s (record s { line = line_round s.line })
  pushes : (b : Bytes) → Step s (record s { line = push_line b s.line })
  ends_reading : s.place ≡ reading → Step s (record s { place = taken_out })
  locks_reader : s.place ≡ taken_out → s.holder ≡ nobody → Step s (record s { holder = reader })
  unlocks_reader : s.holder ≡ reader → Step s (record s { holder = nobody; place = reported })
  closes : s.place ≡ reported → Step s (record s { line = close_line s.line; place = ended })
  locks : (i : ℕ) → s.holder ≡ nobody → Step s (record s { holder = handler i })
  unlocks :
      (i : ℕ) → s.holder ≡ handler i → Step s (record s { holder = nobody; served = s.served + 1 })

pub data Reach (s : Jam) : Jam → Type 0 where
  here : Reach s s
  next : {t u : Jam} → Reach s t → Step t u → Reach s u
