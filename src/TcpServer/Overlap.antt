-- ===== src/TcpServer/Overlap.antt =====
-- tcp/server.go: two connections of one name, both between the check and the map.
use mathlib.Core.Path.{subst}
use kupool.Common.{
  ◌==◌, ==_iff, Text, nat_key, text_key, Map, lookup, delete, lookup-delete_self, update, ℕ, ◌≡◌,
  inl, inr, false, none, ◌∷◌, arith,
}
use kupool.TcpServer.Goroutines.{
  answered, checked, serving, Net, go_to, add_channel, remove_channel, tell, Step, checks, adds,
  removes, tells, Reach, here, next,
}
use kupool.TcpServer.Owners.{check_name-cases}

passes :
    (i : ℕ) (s : Net)
    → (s.conns i).phase ≡ answered
    → lookup (s.conns i).name s.channels ≡ none
    → Step s (go_to i checked s)
passes i s h unused = elim (check_name-cases i s) [
  | inl (free, e) ↦ subst (Step s) e (checks i h)
  | inr (j, taken, e) ↦ absurd (cc)
]

lookup-delete_same : (k n : Text) (m : Map Text ℕ) → k ≡ n → lookup k (delete n m) ≡ none
lookup-delete_same k n m same = rw same (lookup-delete_self n m)

-- Both connections behind their checks and behind their entries, and the first behind its end.
abbrev both_checked : ℕ → ℕ → Net → Net
both_checked i j s = go_to j checked (go_to i checked s)

abbrev both_added : ℕ → ℕ → Net → Net
both_added i j s = add_channel j (add_channel i (both_checked i j s))

abbrev first_ended : ℕ → ℕ → Net → Net
first_ended i j s = tell i (remove_channel i (both_added i j s))

-- If the acceptor has given two connections one name that is free, the goroutines can be interleaved
-- so that both are served, and then the end of the first takes the name out of the map and reports
-- it as disconnected, while the second is still served: a Push to the name finds no channel.
pub overlap_lost :
    (i j : ℕ) (s : Net)
    → (i == j) ≡ false
    → (s.conns i).phase ≡ answered
    → (s.conns j).phase ≡ answered
    → (s.conns i).name ≡ (s.conns j).name
    → lookup (s.conns i).name s.channels ≡ none
    → (u : Net) × Reach s u
      × ((u.conns j).phase ≡ serving)
      × (lookup (u.conns j).name u.channels ≡ none)
      × (u.told ≡ (s.conns j).name ∷ s.told)
unfolding go_to update add_channel remove_channel tell
overlap_lost i j s apart hi hj same unused = (
  first_ended i j s,
  next
      (next
        (next
          (next
            (next (next here (passes i s hi unused)) (
              passes j _
                (ground
                  (arith, same, unused, hi, hj, ==_iff i j, ==_iff j i, ==_iff i i, ==_iff j j))
                (ground (arith, same, unused, ==_iff i j))))
            (adds i (
              ground
                (arith, same, unused, hi, hj, ==_iff i j, ==_iff j i, ==_iff i i, ==_iff j j))))
          (adds j
            (ground (arith, same, unused, hi, hj, ==_iff i j, ==_iff j i, ==_iff i i, ==_iff j j))))
        (removes i
          (ground (arith, same, unused, hi, hj, ==_iff i j, ==_iff j i, ==_iff i i, ==_iff j j))))
      (tells i
        (ground (arith, same, unused, hi, hj, ==_iff i j, ==_iff j i, ==_iff i i, ==_iff j j))),
  ground (arith, apart, ==_iff i j, ==_iff j i, ==_iff j j),
  lookup-delete_same _ _ _ (ground (arith, same, ==_iff i j, ==_iff j i, ==_iff i i, ==_iff j j)),
  ground (arith, same, ==_iff i j, ==_iff j i, ==_iff i i, ==_iff j j),
)
