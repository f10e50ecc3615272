-- ===== src/Channel/Closing.antt =====
-- channel.go: a Push while Close runs, which closes the queue and fires the event in two steps.
use kupool.Common.{
  ltb, if◌then◌else◌, length, Bytes, ℕ, zero, suc, ◌≤◌, ◌<◌, ◌≡◌, ◌↔◌, false, List, [], ◌∷◌, ◌++◌,
  arith,
}
use kupool.Event.{fire, has_fired}
use kupool.Channel.{
  Channel, Pushed, queued, blocked, refused, panics, capacity, push, close_at, close,
}

-- Line 82: the send, for a Push that has passed its test and perhaps waited for room since.
unfoldable pub send_payload : Bytes → Channel → Pushed × Channel
send_payload payload ch =
    if ch.queue_closed
    then (panics, ch)
    else if ltb (length ch.queue) capacity
    then (queued, record ch { queue = ch.queue ++ payload ∷ [] })
    else (blocked, ch)

-- Push, which tests the event when Close has made `i` of its two calls, and sends when it has made
-- `j`, into a queue that others may have changed in between.
unfoldable pub push_during : ℕ → ℕ → List Bytes → Bytes → Channel → Pushed
push_during i j queue payload ch =
    if has_fired (close_at i ch).closed
    then refused
    else (send_payload payload (record (close_at j ch) { queue = queue })).0

push_during-once :
    (i : ℕ) (payload : Bytes) (ch : Channel)
    → push_during i i (close_at i ch).queue payload ch ≡ (push payload (close_at i ch)).0
unfolding push_during push send_payload
push_during-once i payload ch = ground arith

module _ (payload : Bytes) (queue : List Bytes) (ch : Channel) (unclosed : ch.queue_closed ≡ false)
    (unfired : has_fired ch.closed ≡ false) (undone : ch.closed.is_done ≡ false) where
  refused_iff : (i j : ℕ) → i ≤ j → (push_during i j queue payload ch ≡ refused) ↔ (2 ≤ i)
  unfolding push_during send_payload has_fired fire
  refused_iff zero zero le = ground (arith, unclosed, unfired)
  refused_iff zero (suc zero) le = ground (arith, unfired)
  refused_iff zero (suc (suc j)) le = ground (arith, unfired)
  refused_iff (suc zero) zero le = absurd (omega arith)
  refused_iff (suc zero) (suc zero) le = ground (arith, unfired)
  refused_iff (suc zero) (suc (suc j)) le = ground (arith, unfired)
  refused_iff (suc (suc i)) j le = ground (arith, undone)

  panics_iff : (i j : ℕ) → i ≤ j → (push_during i j queue payload ch ≡ panics) ↔ ((i < 2) × (1 ≤ j))
  unfolding push_during send_payload has_fired fire
  panics_iff zero zero le = ground (arith, unclosed, unfired)
  panics_iff zero (suc zero) le = ground (arith, unfired)
  panics_iff zero (suc (suc j)) le = ground (arith, unfired)
  panics_iff (suc zero) zero le = absurd (omega arith)
  panics_iff (suc zero) (suc zero) le = ground (arith, unfired)
  panics_iff (suc zero) (suc (suc j)) le = ground (arith, unfired)
  panics_iff (suc (suc i)) j le = ground (arith, undone)

-- The first Close of a channel whose event has not fired makes two calls. A Push that tests when
-- `i` of them are made and sends when `j` are, into whatever queue it then finds, is refused exactly
-- if it tests behind both, and panics exactly if it tests before the second and sends behind the
-- first. A Push that nothing comes between is the case of equal numbers, and a further Close
-- changes nothing.
pub close-push :
    (payload : Bytes) (queue : List Bytes) (ch : Channel) (i j : ℕ)
    → i ≤ j
    → ch.once_done ≡ false
    → ch.queue_closed ≡ false
    → has_fired ch.closed ≡ false
    → ch.closed.is_done ≡ false
    → ((push_during i j queue payload ch ≡ refused) ↔ (2 ≤ i))
      × ((push_during i j queue payload ch ≡ panics) ↔ ((i < 2) × (1 ≤ j)))
      × (push_during i i (close_at i ch).queue payload ch ≡ (push payload (close_at i ch)).0)
      × (close ch ≡ close_at 2 ch)
      × (close (close ch) ≡ close ch)
unfolding close
close-push payload queue ch i j le fresh unclosed unfired undone = (
  refused_iff payload queue ch unclosed unfired undone i j le,
  panics_iff payload queue ch unclosed unfired undone i j le,
  push_during-once i payload ch,
  ground (arith, fresh),
  ground (arith, fresh),
)
