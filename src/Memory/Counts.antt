-- ===== src/Memory/Counts.antt =====
-- stats/memory.go: the count of a minute against the list of the events that were stored.
use kupool.Common.{
  if◌then◌else◌, Text, text_beq, text_beq_iff, nat_key, text_key, Map, lookup, insert,
  lookup-insert, Stamp, truncate_stamp, stamp_beq, stamp_beq_iff, stamp_key, ℕ, ◌+◌, ◌%◌, ◌^◌, ◌<◌,
  ◌≡◌, refl, ap, ◌&&◌, none, some, List, [], ◌∷◌, arith,
}
use kupool.State.{SubmitEvent}
use kupool.Memory.{MemoryStore, new_memory_store, or_zero, increment, get}

-- The consumer's calls of `Increment`, in the order of the events.
unfoldable pub increments : List SubmitEvent → MemoryStore → MemoryStore
increments [] s = s
increments (e ∷ es) s = increments es (increment e.username e.time s).1

-- The events of a user in the minute of a time, of the same location.
unfoldable pub count : Text → Stamp → List SubmitEvent → ℕ
count username time [] = 0
count username time (e ∷ es) =
    let rest = count username time es in
    if text_beq e.username username && stamp_beq (truncate_stamp e.time) (truncate_stamp time)
    then rest + 1
    else rest

-- What is stored for a user and a minute.
abbrev stored : Text → Stamp → MemoryStore → ℕ
stored username time s =
    or_zero 0 (lookup (truncate_stamp time) (or_zero [] (lookup username s.counts)))

lookup-nil : (m : Stamp) → lookup m (let none_yet : Map Stamp ℕ = [] in none_yet) ≡ none
unfolding lookup
lookup-nil m = refl

get-stored : (u : Text) (t : Stamp) (s : MemoryStore) → get u t s ≡ some (stored u t s)
unfolding get
get-stored u t s = ground (arith, lookup-nil (truncate_stamp t))

stored-increment :
    (u v : Text) (t r : Stamp) (s : MemoryStore)
    → stored u t (increment v r s).1 ≡ (
        if text_beq v u && stamp_beq (truncate_stamp r) (truncate_stamp t)
        then (stored u t s + 1) % 2 ^ 64
        else stored u t s)
unfolding increment
stored-increment u v t r s =
    let m = truncate_stamp r in
    let c = or_zero [] (lookup v s.counts) in
    let n : ℕ = (or_zero 0 (lookup m c) + 1) % 2 ^ 64 in
    ground (
      arith,
      lookup-insert v u (insert m n c) s.counts,
      lookup-insert m (truncate_stamp t) n c,
      text_beq_iff v u,
      stamp_beq_iff (truncate_stamp r) (truncate_stamp t),
    )

stored-increments :
    (u : Text) (t : Stamp) (es : List SubmitEvent) (s : MemoryStore)
    → stored u t s < 2 ^ 64
    → stored u t (increments es s) ≡ (stored u t s + count u t es) % 2 ^ 64
unfolding increments count
stored-increments u t [] s h = omega arith
stored-increments u t (e ∷ es) s h = ground (
  arith,
  stored-increment u e.username t e.time s,
  stored-increments u t es (increment e.username e.time s).1,
)

stored_at_first : (u : Text) (t : Stamp) → stored u t new_memory_store ≡ 0
unfolding new_memory_store lookup
stored_at_first u t = refl

-- After any sequence of events, `Get` returns the number of the user's events in the minute of the
-- time asked for and of its location, modulo the range of a 64-bit integer, and no error.
pub get-increments :
    (u : Text) (t : Stamp) (es : List SubmitEvent)
    → get u t (increments es new_memory_store) ≡ some (count u t es % 2 ^ 64)
get-increments u t es = rw (get-stored u t (increments es new_memory_store)) (
    ap some (
      omega (
        arith,
        stored_at_first u t,
        stored-increments u t es new_memory_store (omega (arith, stored_at_first u t)),
      )))
