-- ===== src/TcpServer/Owners.antt =====
-- tcp/server.go: what the channel map says of the connections that are served.
use kupool.Common.{
  ==_iff, Option-cases, Text, text_beq_iff, nat_key, text_key, lookup, lookup-insert, lookup-delete,
  update, ℕ, ◌≡◌, refl, ◌≢◌, ◌⊎◌, inl, inr, none, some, arith,
}
use kupool.TcpServer.Goroutines.{
  Reach, here, next, started, checked, serving, turned_away, Conn, Net, go_to, take_answer,
  check_name, add_channel, remove_channel, tell, close_channel, Step, answers, checks, adds,
  removes, tells, closes, started, Reach, here, next,
}
use kupool.TcpServer.{accepted, refused}

-- Every channel in the map stands under its own name and is served.
abbrev pub IsOwned : Net → Type 0
IsOwned s =
    (k : Text) (j : ℕ)
    → lookup k s.channels ≡ some j
    → ((s.conns j).phase ≡ serving) × ((s.conns j).name ≡ k)

-- A goroutine that is not serving goes elsewhere with the map as it is.
IsOwned-update :
    (i : ℕ) (c : Conn) (s : Net)
    → (s.conns i).phase ≢ serving
    → IsOwned s
    → IsOwned (record s { conns = update i c s.conns })
unfolding update
IsOwned-update i c s off owned = λ k j known. ground (arith, ==_iff i j, off, owned k j known)

pub check_name-cases :
    (i : ℕ) (s : Net)
    → ((lookup (s.conns i).name s.channels ≡ none) × (check_name i s ≡ go_to i checked s))
      ⊎ (j : ℕ) × (lookup (s.conns i).name s.channels ≡ some j)
        × (check_name i s ≡ go_to i turned_away s)
unfolding check_name
check_name-cases i s = elim (Option-cases (lookup (s.conns i).name s.channels)) [
  | inl free ↦ inl (free, rw (free, check_name) refl)
  | inr (j, taken) ↦ inr (j, taken, rw (taken, check_name) refl)
]

pub Step-IsOwned : {s t : Net} → Step s t → IsOwned s → IsOwned t
unfolding go_to take_answer add_channel update remove_channel tell close_channel
Step-IsOwned {s} (answers i (accepted id) h) owned = IsOwned-update i _ s (ground (arith, h)) owned
Step-IsOwned {s} (answers i (refused r) h) owned = IsOwned-update i _ s (ground (arith, h)) owned
Step-IsOwned {s} (checks i h) owned = elim (check_name-cases i s) [
  | inl (free, e) ↦ rw e (IsOwned-update i _ s (ground (arith, h)) owned)
  | inr (j, taken, e) ↦ rw e (IsOwned-update i _ s (ground (arith, h)) owned)
]
Step-IsOwned {s} (adds i h) owned = λ k j known. ground (
  arith,
  ==_iff i j,
  text_beq_iff (s.conns i).name k,
  h,
  owned k j,
  lookup-insert (s.conns i).name k i s.channels,
)
Step-IsOwned {s} (removes i h) owned = λ k j known. ground (
  arith,
  ==_iff i j,
  text_beq_iff (s.conns i).name k,
  h,
  owned k j,
  lookup-delete (s.conns i).name k s.channels,
)
Step-IsOwned {s} (tells i h) owned = IsOwned-update i _ s (ground (arith, h)) owned
Step-IsOwned {s} (closes i h) owned = IsOwned-update i _ s (ground (arith, h)) owned

IsOwned-started : IsOwned started
unfolding started lookup
IsOwned-started k j known = cc

-- In every state that the goroutines reach from an empty map, however they are interleaved, the map
-- holds only channels that are being served, each under its own name.
pub Reach-IsOwned : {s : Net} → Reach started s → IsOwned s
Reach-IsOwned here = IsOwned-started
Reach-IsOwned (next r st) = Step-IsOwned st (Reach-IsOwned r)
