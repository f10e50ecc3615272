-- ===== src/Event.antt =====
-- event.go: an event that happens once. Its channel is closed when it has fired.
use kupool.Common.{if◌then◌else◌, ℕ, zero, suc, ◌+◌, ◌≡◌, refl, Bool, true, false, arith}

pub record Event : Type 0 where
  pub fired : Bool
  pub is_closed : Bool
  pub is_done : Bool

unfoldable pub new_event : Event
new_event = record { fired = false; is_closed = false; is_done = false }

-- `Fire`: the body of `sync.Once` runs on the first call.
unfoldable pub fire : Event → Bool × Event
fire e =
    if e.is_done
    then (false, e)
    else (true, record { fired = true; is_closed = true; is_done = true })

unfoldable pub has_fired : Event → Bool
has_fired e = e.fired

pub fires : ℕ → Event → ℕ × Event
fires zero e = (0, e)
fires (suc n) e = let (b, e') = fire e in let (k, e'') = fires n e' in (if b then k + 1 else k, e'')

fires_again : (n : ℕ) (e : Event) → e.is_done ≡ true → fires n e ≡ (0, e)
unfolding fires fire
fires_again zero e h = refl
fires_again (suc n) e h = ground (arith, fires_again n e h)

-- Of any number of calls of `Fire` on a new event exactly one reports that it closed the channel,
-- and then the event has fired and its channel is closed.
pub fires_once :
    (n : ℕ)
    → ((fires (suc n) new_event).0 ≡ 1)
      × (has_fired (fires (suc n) new_event).1 ≡ true)
      × ((fires (suc n) new_event).1.is_closed ≡ true)
unfolding fires fire new_event has_fired
fires_once n =
    let spent : Event = record { fired = true; is_closed = true; is_done = true } in
    let again = fires_again n spent refl in
    (ground (arith, again), ground (arith, again), ground (arith, again))
