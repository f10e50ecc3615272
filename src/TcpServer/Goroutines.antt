-- ===== src/TcpServer/Goroutines.antt =====
-- tcp/server.go: the goroutines that Start starts, one for each connection, interleaved between
-- their accesses to the channel map; the map holds pointers to the channels.
use kupool.Common.{
  Text, nat_key, text_key, Map, lookup, insert, delete, update, ℕ, ◌≡◌, none, some, List, [], ◌∷◌,
}
use kupool.TcpServer.{Answer, accepted, refused}

-- Where a goroutine is: before line 79, 86, 97 and 104 (`serving`, in the reading loop), before
-- lines 105 and 106; `rejected` (by the acceptor), `turned_away` (its name is taken) and `closed`
-- are its ends.
pub data Phase : Type 0 where
  idle answered checked serving removed reported rejected turned_away closed : Phase

-- `name` is the name that the acceptor gave, if the phase is not `idle`.
pub record Conn : Type 0 where
  pub name : Text
  pub phase : Phase

-- `channels`: the connection whose channel the map holds under a name. `told` holds the names
-- handed to the state listener, the newest first.
pub record Net : Type 0 where
  pub channels : Map Text ℕ
  pub conns : ℕ → Conn
  pub told : List Text

unfoldable pub go_to : ℕ → Phase → Net → Net
go_to i p s = record s { conns = update i (record { name = (s.conns i).name; phase = p }) s.conns }

-- Lines 79 to 85.
unfoldable pub take_answer : ℕ → Answer → Net → Net
take_answer i (accepted id) s = record s {
  conns = update i (record { name = id; phase = answered }) s.conns;
}
take_answer i (refused reason) s = record s {
  conns = update i (record { name = []; phase = rejected }) s.conns;
}

-- Lines 86 to 91.
unfoldable pub check_name : ℕ → Net → Net
check_name i s = elim (lookup (s.conns i).name s.channels) [
  | none ↦ go_to i checked s
  | some j ↦ go_to i turned_away s
]

-- Lines 93 to 97.
unfoldable pub add_channel : ℕ → Net → Net
add_channel i s = go_to i serving (record s { channels = insert (s.conns i).name i s.channels })

-- Line 104.
unfoldable pub remove_channel : ℕ → Net → Net
remove_channel i s = go_to i removed (record s { channels = delete (s.conns i).name s.channels })

-- Line 105.
unfoldable pub tell : ℕ → Net → Net
tell i s = go_to i reported (record s { told = (s.conns i).name ∷ s.told })

-- Line 106.
unfoldable pub close_channel : ℕ → Net → Net
close_channel i s = go_to i closed s

-- A step of one goroutine, which the scheduler picks.
pub data Step (s : Net) : Net → Type 0 where
  answers : (i : ℕ) (a : Answer) → (s.conns i).phase ≡ idle → Step s (take_answer i a s)
  checks : (i : ℕ) → (s.conns i).phase ≡ answered → Step s (check_name i s)
  adds : (i : ℕ) → (s.conns i).phase ≡ checked → Step s (add_channel i s)
  removes : (i : ℕ) → (s.conns i).phase ≡ serving → Step s (remove_channel i s)
  tells : (i : ℕ) → (s.conns i).phase ≡ removed → Step s (tell i s)
  closes : (i : ℕ) → (s.conns i).phase ≡ reported → Step s (close_channel i s)

unfoldable pub started : Net
started = record { channels = []; conns = λ i. record { name = []; phase = idle }; told = [] }

pub data Reach (s : Net) : Net → Type 0 where
  here : Reach s s
  next : {t u : Net} → Reach s t → Step t u → Reach s u
