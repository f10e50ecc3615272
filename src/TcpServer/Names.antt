-- ===== src/TcpServer/Names.antt =====
-- tcp/server.go: connections to which the acceptor gives different names.
use kupool.Common.{
  ==_iff, nat_key, text_key, lookup, update, ℕ, ◌≡◌, sym, ◌∙◌, ◌≢◌, ◌↔◌, inl, inr, some, arith,
}
use kupool.TcpServer.Goroutines.{
  Phase, idle, checked, serving, removed, reported, rejected, turned_away, closed, Conn, Net, go_to,
  take_answer, add_channel, remove_channel, tell, close_channel, Step, answers, checks, adds,
  removes, tells, closes, started, Reach, here, next,
}
use kupool.TcpServer.{Answer, accepted, refused}
use kupool.TcpServer.Owners.{check_name-cases}
use kupool.TcpServer.Calm.{IsAlone, Calm, calm, later, Calm-IsServed}

-- The acceptor has given the connection a name.
abbrev pub IsNamed : Conn → Type 0
IsNamed c = (c.phase ≢ idle) × (c.phase ≢ rejected)

abbrev pub IsDistinct : Net → Type 0
IsDistinct s =
    (i j : ℕ)
    → IsNamed (s.conns i)
    → IsNamed (s.conns j)
    → (s.conns i).name ≡ (s.conns j).name
    → i ≡ j

abbrev KeepsName : Net → Net → Type 0
KeepsName s t =
    (j : ℕ) → IsNamed (s.conns j) → IsNamed (t.conns j) × ((t.conns j).name ≡ (s.conns j).name)

KeepsName-go_to :
    (i : ℕ) (p : Phase) (s : Net) → p ≢ idle → p ≢ rejected → KeepsName s (go_to i p s)
unfolding go_to update
KeepsName-go_to i p s hi hr = λ j (ni, nr). (
  ((λ e. ground (arith, ==_iff i j, hi, ni)), (λ e. ground (arith, ==_iff i j, hr, nr))),
  ground (arith, ==_iff i j),
)

KeepsName-take_answer :
    (i : ℕ) (a : Answer) (s : Net) → (s.conns i).phase ≡ idle → KeepsName s (take_answer i a s)
unfolding take_answer update
KeepsName-take_answer i (accepted id) s h = λ j (ni, nr). (
  ((λ e. ground (arith, ==_iff i j, h, ni)), (λ e. ground (arith, ==_iff i j, h, nr))),
  ground (arith, ==_iff i j, h, ni),
)
KeepsName-take_answer i (refused r) s h = λ j (ni, nr). (
  ((λ e. ground (arith, ==_iff i j, h, ni)), (λ e. ground (arith, ==_iff i j, h, ni, nr))),
  ground (arith, ==_iff i j, h, ni),
)

Step-KeepsName : {s t : Net} → Step s t → KeepsName s t
unfolding add_channel remove_channel tell close_channel
Step-KeepsName {s} (answers i a h) = KeepsName-take_answer i a s h
Step-KeepsName {s} (checks i h) = elim (check_name-cases i s) [
  | inl (unused, e) ↦ rw e (KeepsName-go_to i checked s (λ e. cc) (λ e. cc))
  | inr (j, taken, e) ↦ rw e (KeepsName-go_to i turned_away s (λ e. cc) (λ e. cc))
]
Step-KeepsName {s} (adds i h) = KeepsName-go_to i serving _ (λ e. cc) (λ e. cc)
Step-KeepsName {s} (removes i h) = KeepsName-go_to i removed _ (λ e. cc) (λ e. cc)
Step-KeepsName {s} (tells i h) = KeepsName-go_to i reported _ (λ e. cc) (λ e. cc)
Step-KeepsName {s} (closes i h) = KeepsName-go_to i closed s (λ e. cc) (λ e. cc)

IsDistinct-before : (s t : Net) → Step s t → IsDistinct t → IsDistinct s
IsDistinct-before s t st distinct = λ i j ni nj same.
    let (mi, ei) = Step-KeepsName st i ni in
    let (mj, ej) = Step-KeepsName st j nj in distinct i j mi mj (ei ∙ same ∙ sym ej)

IsDistinct-IsAlone : (s : Net) → IsDistinct s → IsAlone s
IsDistinct-IsAlone s distinct =
    λ i j ci cj same. distinct i j ((λ e. cc), (λ e. cc)) ((λ e. cc), (λ e. cc)) same

-- A run is calm if the names that the acceptor has given by its end are different.
distinct-Calm : {s : Net} → Reach started s → IsDistinct s → Calm started s
distinct-Calm here distinct = calm
distinct-Calm {s} (next {t} r st) distinct =
    let before = IsDistinct-before t s st distinct in
    later (distinct-Calm r before) (IsDistinct-IsAlone t before) st

-- However the goroutines of the connections are interleaved from an empty map, if the names that
-- the acceptor has given are different, a connection is served exactly if it is what the map holds
-- under its name.
pub distinct-served :
    (s : Net) (i : ℕ)
    → Reach started s
    → IsDistinct s
    → ((s.conns i).phase ≡ serving) ↔ (lookup (s.conns i).name s.channels ≡ some i)
distinct-served s i run distinct = Calm-IsServed i (distinct-Calm run distinct)
