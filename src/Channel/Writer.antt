-- ===== src/Channel/Writer.antt =====
-- channel.go, writeloop: the writing goroutine of a channel on a connection whose writes may fail.
use kupool.Common.{
  if◌then◌else◌, length, take, length-append, Bytes, ℕ, zero, suc, ◌+◌, ◌≤◌, ◌<◌, ◌≡◌, refl, sym,
  ap, ◌∙◌, ◌⊎◌, Bool, true, false, List, [], ◌∷◌, ◌++◌, arith,
}
use mathlib.Core.List.{append-nil, append_assoc}
use kupool.Channel.Delivery.{frames_of}
use kupool.Event.{has_fired}
use kupool.Channel.{Channel, blocked, capacity, push, write_frame, binary_frame}

-- A channel with its writing goroutine: `writing` while it runs, and `takes` is the number of
-- frames that the connection still takes before a write fails.
pub record Line : Type 0 where
  pub channel : Channel
  pub writing : Bool
  pub takes : ℕ

abbrev written_one : Bytes → List Bytes → ℕ → Line → Line
written_one p ps n l = record {
  channel = write_frame (binary_frame p) (record l.channel { queue = ps });
  writing = l.writing;
  takes = n;
}

-- A payload that is taken from the queue and whose write fails is lost, and the goroutine ends.
abbrev failed_one : List Bytes → Line → Line
failed_one ps l = record l { channel = record l.channel { queue = ps }; writing = false }

-- The payloads that were queued when the round began, on a connection that takes `n` frames.
unfoldable pub drain_line : ℕ → List Bytes → Line → Line
drain_line n [] l = l
drain_line zero (p ∷ ps) l = failed_one ps l
drain_line (suc n) (p ∷ ps) l = drain_line n ps (written_one p ps n l)

-- A round of `writeloop`; a closed queue that is empty yields nil, which is written as well.
unfoldable pub line_round : Line → Line
line_round l =
    if l.writing
    then elim l.channel.queue [
      | [] ↦ if l.channel.queue_closed then drain_line l.takes ([] ∷ []) l else l
      | p ∷ ps ↦ drain_line l.takes (p ∷ ps) l
    ]
    else l

-- What happens on a line: a call of `Push`, or a round of the goroutine.
pub data Move : Type 0 where
  pushing : Bytes → Move
  writing_round : Move

abbrev pub move : Move → Line → Line
move (pushing b) l = record l { channel = (push b l.channel).1 }
move writing_round l = line_round l

abbrev pub moves : List Move → Line → Line
moves [] l = l
moves (x ∷ xs) l = moves xs (move x l)

unfoldable pub count_pushes : List Move → ℕ
count_pushes [] = 0
count_pushes (pushing b ∷ xs) = suc (count_pushes xs)
count_pushes (writing_round ∷ xs) = count_pushes xs

-- The goroutine has ended, the channel is open.
abbrev pub IsStuck : Line → Type 0
IsStuck l =
    (l.writing ≡ false)
    × (has_fired l.channel.closed ≡ false)
    × (l.channel.queue_closed ≡ false)
    × (length l.channel.queue ≤ capacity)

pub move-IsStuck :
    (x : Move) (l : Line)
    → IsStuck l
    → IsStuck (move x l) × ((move x l).channel.written ≡ l.channel.written)
unfolding push line_round
move-IsStuck (pushing b) l h = ground (arith, length-append l.channel.queue (b ∷ []))
move-IsStuck writing_round l h = ground arith

-- The queue fills up: no payload leaves it.
move-queue :
    (x : Move) (l : Line)
    → IsStuck l
    → (length (move x l).channel.queue ≡ capacity)
      ⊎ (length (move x l).channel.queue ≡ length l.channel.queue + count_pushes (x ∷ []))
unfolding push line_round count_pushes
move-queue (pushing b) l h = ground (arith, length-append l.channel.queue (b ∷ []))
move-queue writing_round l h = ground arith

pub full_push :
    (b : Bytes) (l : Line)
    → IsStuck l
    → capacity ≤ length l.channel.queue
    → push b l.channel ≡ (blocked, l.channel)
unfolding push
full_push b l h full = ground arith

count_pushes-cons :
    (x : Move) (xs : List Move) → count_pushes (x ∷ xs) ≡ count_pushes (x ∷ []) + count_pushes xs
unfolding count_pushes
count_pushes-cons (pushing b) xs = omega arith
count_pushes-cons writing_round xs = omega arith

-- After enough calls of Push the queue is full.
moves-full :
    (xs : List Move) (l : Line)
    → IsStuck l
    → capacity ≤ length l.channel.queue + count_pushes xs
    → IsStuck (moves xs l)
      × (capacity ≤ length (moves xs l).channel.queue)
      × ((moves xs l).channel.written ≡ l.channel.written)
unfolding count_pushes
moves-full [] l h full = (h, omega arith, refl)
moves-full (x ∷ xs) l h full =
    let (h', same) = move-IsStuck x l h in
    let room : capacity ≤ length (move x l).channel.queue + count_pushes xs =
      ground (arith, move-queue x l h, count_pushes-cons x xs, full) in
    let (stuck, filled, rest) = moves-full xs (move x l) h' room in (stuck, filled, rest ∙ same)

-- What a round leaves that meets a failing write.
abbrev Failed : ℕ → List Bytes → Line → Line → Type 0
Failed n q l r =
    (r.writing ≡ false)
    × (length r.channel.queue ≤ length q)
    × (r.channel.written ≡ l.channel.written ++ frames_of (take n q))
    × (r.channel.closed ≡ l.channel.closed)
    × (r.channel.queue_closed ≡ l.channel.queue_closed)

drain_line-Failed :
    (n : ℕ) (q : List Bytes) (l : Line) → n < length q → Failed n q l (drain_line n q l)
unfolding drain_line write_frame
drain_line-Failed n [] l h = absurd (omega arith)
drain_line-Failed zero (p ∷ ps) l h =
    (refl, omega arith, sym (append-nil l.channel.written), refl, refl)
drain_line-Failed (suc n) (p ∷ ps) l h =
    let (ended, short, written, closed, queue_closed) =
      drain_line-Failed n ps (written_one p ps n l) (omega arith) in
    (
      ended,
      omega arith,
      written ∙ append_assoc l.channel.written (binary_frame p ∷ []) (frames_of (take n ps)),
      closed,
      queue_closed,
    )

line_round-Failed :
    (q : List Bytes) (l : Line)
    → l.channel.queue ≡ q
    → l.writing ≡ true
    → l.takes < length q
    → Failed l.takes q l (line_round l)
unfolding line_round
line_round-Failed [] l e running h = absurd (omega arith)
line_round-Failed (p ∷ ps) l e running h =
    rw (running, line_round, e) (drain_line-Failed l.takes (p ∷ ps) l h)

-- Behind a round that meets a failing write, and enough calls of Push.
pub line_round-full :
    (xs : List Move) (l : Line)
    → l.writing ≡ true
    → has_fired l.channel.closed ≡ false
    → l.channel.queue_closed ≡ false
    → length l.channel.queue ≤ capacity
    → l.takes < length l.channel.queue
    → capacity ≤ count_pushes xs
    → let l' = moves xs (line_round l) in
      IsStuck l'
      × (capacity ≤ length l'.channel.queue)
      × (l'.channel.written ≡ l.channel.written ++ frames_of (take l.takes l.channel.queue))
line_round-full xs l running open_event open_queue within fails enough =
    let (ended, short, written, closed, queue_closed) =
      line_round-Failed l.channel.queue l refl running fails in
    let stuck : IsStuck (line_round l) =
      (ended, ap has_fired closed ∙ open_event, queue_closed ∙ open_queue, omega arith) in
    let (h, full, same) = moves-full xs (line_round l) stuck (omega arith) in
    (h, full, same ∙ written)

-- When a write fails in a round of the writing goroutine, the frames before it are the last that
-- the channel writes; and although the channel stays open and its reading loop may go on, after as
-- many further calls of Push as the queue has places the next one blocks, whatever rounds are tried
-- in between.
pub push-line_round :
    (xs : List Move) (b : Bytes) (l : Line)
    → l.writing ≡ true
    → has_fired l.channel.closed ≡ false
    → l.channel.queue_closed ≡ false
    → length l.channel.queue ≤ capacity
    → l.takes < length l.channel.queue
    → capacity ≤ count_pushes xs
    → ((push b (moves xs (line_round l)).channel).0 ≡ blocked)
      × ((moves xs (line_round l)).channel.written
          ≡ l.channel.written ++ frames_of (take l.takes l.channel.queue))
push-line_round xs b l running open_event open_queue within fails enough =
    let (h, full, written) =
      line_round-full xs l running open_event open_queue within fails enough in
    (ap (λ r. r.0) (full_push b (moves xs (line_round l)) h full), written)
