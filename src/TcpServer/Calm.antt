-- ===== src/TcpServer/Calm.antt =====
-- tcp/server.go: runs in which no two connections of one name are between the check of their name
-- and their entry in the channel map at once.
use kupool.Common.{
  ==_iff, text_beq_iff, nat_key, text_key, lookup, lookup-insert, lookup-delete, update, ℕ, ◌≡◌,
  refl, ◌≢◌, ◌↔◌, inl, inr, none, some, arith,
}
use kupool.TcpServer.Goroutines.{
  checked, serving, Conn, Net, go_to, take_answer, add_channel, remove_channel, tell, close_channel,
  Step, answers, checks, adds, removes, tells, closes, started,
}
use kupool.TcpServer.{accepted, refused}
use kupool.TcpServer.Owners.{IsOwned, Step-IsOwned, check_name-cases}

-- No two connections of one name have passed the check and are not in the map yet.
abbrev pub IsAlone : Net → Type 0
IsAlone s =
    (i j : ℕ)
    → (s.conns i).phase ≡ checked
    → (s.conns j).phase ≡ checked
    → (s.conns i).name ≡ (s.conns j).name
    → i ≡ j

-- The runs whose states, but for the last, are alone.
pub data Calm (s : Net) : Net → Type 0 where
  calm : Calm s s
  later : {t u : Net} → Calm s t → IsAlone t → Step t u → Calm s u

-- Each connection that is served stands in the map under its name.
abbrev pub IsServed : Net → Type 0
IsServed s = (i : ℕ) → (s.conns i).phase ≡ serving → lookup (s.conns i).name s.channels ≡ some i

-- The name of a connection that has passed the check is still free.
abbrev pub IsFree : Net → Type 0
IsFree s = (i : ℕ) → (s.conns i).phase ≡ checked → lookup (s.conns i).name s.channels ≡ none

pub record Inv (s : Net) : Type 0 where
  pub owned : IsOwned s
  pub served : IsServed s
  pub free : IsFree s

abbrev inv_of : {s : Net} → IsOwned s → IsServed s × IsFree s → Inv s
inv_of owned (served, free) = record { owned = owned; served = served; free = free }

-- A goroutine that neither leaves nor enters the map, and passes the check on a free name only.
IsServed-update :
    (i : ℕ) (c : Conn) (s : Net)
    → (s.conns i).phase ≢ serving
    → c.phase ≢ serving
    → (c.phase ≡ checked → lookup c.name s.channels ≡ none)
    → IsServed s × IsFree s
    → IsServed (record s { conns = update i c s.conns })
      × IsFree (record s { conns = update i c s.conns })
unfolding update
IsServed-update i c s off out frees (served, free) = (
  λ j now. ground (arith, ==_iff i j, out, served j),
  λ j now. ground (arith, ==_iff i j, frees, free j),
)

IsServed-add_channel :
    (i : ℕ) (s : Net)
    → (s.conns i).phase ≡ checked
    → IsAlone s
    → IsOwned s
    → IsServed s × IsFree s
    → IsServed (add_channel i s) × IsFree (add_channel i s)
unfolding add_channel go_to update
IsServed-add_channel i s h alone owned (served, free) = (
  λ j now. ground (
    arith,
    ==_iff i j,
    text_beq_iff (s.conns i).name (s.conns j).name,
    free i h,
    served j,
    lookup-insert (s.conns i).name (s.conns j).name i s.channels,
  ),
  λ j now. ground (
    arith,
    ==_iff i j,
    text_beq_iff (s.conns i).name (s.conns j).name,
    alone i j h,
    free j,
    lookup-insert (s.conns i).name (s.conns j).name i s.channels,
  ),
)

IsServed-remove_channel :
    (i : ℕ) (s : Net)
    → (s.conns i).phase ≡ serving
    → IsServed s × IsFree s
    → IsServed (remove_channel i s) × IsFree (remove_channel i s)
unfolding remove_channel go_to update
IsServed-remove_channel i s h (served, free) = (
  λ j now. ground (
    arith,
    ==_iff i j,
    text_beq_iff (s.conns i).name (s.conns j).name,
    served i h,
    served j,
    lookup-delete (s.conns i).name (s.conns j).name s.channels,
  ),
  λ j now. ground (
    arith,
    ==_iff i j,
    text_beq_iff (s.conns i).name (s.conns j).name,
    free j,
    lookup-delete (s.conns i).name (s.conns j).name s.channels,
  ),
)

Step-IsServed : {s t : Net} → Step s t → IsAlone s → Inv s → IsServed t × IsFree t
unfolding go_to take_answer tell close_channel
Step-IsServed {s} (answers i (accepted id) h) alone inv =
    IsServed-update i _ s (ground (arith, h)) (λ e. cc) (λ e. cc) (inv.served, inv.free)
Step-IsServed {s} (answers i (refused r) h) alone inv =
    IsServed-update i _ s (ground (arith, h)) (λ e. cc) (λ e. cc) (inv.served, inv.free)
Step-IsServed {s} (checks i h) alone inv = elim (check_name-cases i s) [
  | inl (unused, e) ↦
      rw e
        (IsServed-update i _ s (ground (arith, h)) (λ e. cc) (λ e. unused) (inv.served, inv.free))
  | inr (j, taken, e) ↦
      rw e (IsServed-update i _ s (ground (arith, h)) (λ e. cc) (λ e. cc) (inv.served, inv.free))
]
Step-IsServed {s} (adds i h) alone inv =
    IsServed-add_channel i s h alone inv.owned (inv.served, inv.free)
Step-IsServed {s} (removes i h) alone inv = IsServed-remove_channel i s h (inv.served, inv.free)
Step-IsServed {s} (tells i h) alone inv =
    IsServed-update i _ s (ground (arith, h)) (λ e. cc) (λ e. cc) (inv.served, inv.free)
Step-IsServed {s} (closes i h) alone inv =
    IsServed-update i _ s (ground (arith, h)) (λ e. cc) (λ e. cc) (inv.served, inv.free)

Step-Inv : {s t : Net} → Step s t → IsAlone s → Inv s → Inv t
Step-Inv st alone inv = inv_of (Step-IsOwned st inv.owned) (Step-IsServed st alone inv)

Inv-started : Inv started
unfolding started lookup
Inv-started = record { owned = λ k j known. cc; served = λ i now. cc; free = λ i now. refl }

pub Calm-Inv : {s : Net} → Calm started s → Inv s
Calm-Inv calm = Inv-started
Calm-Inv (later r alone st) = Step-Inv st alone (Calm-Inv r)

-- In a calm run from an empty map a connection is served exactly if it is what the map holds under
-- its name.
pub Calm-IsServed :
    {s : Net} (i : ℕ)
    → Calm started s
    → ((s.conns i).phase ≡ serving) ↔ (lookup (s.conns i).name s.channels ≡ some i)
Calm-IsServed {s} i r =
    let inv = Calm-Inv r in (inv.served i, λ known. (inv.owned (s.conns i).name i known).0)
