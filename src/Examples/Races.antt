-- ===== src/Examples/Races.antt =====
-- Tests of the goroutines of a TCP server.
use kupool.Common.{
  ==_iff, nat_key, text_key, lookup, update, codes, ◌≡◌, refl, ◌↔◌, none, some, ◌∷◌, arith,
}
use kupool.TcpServer.{accepted, new_server}
use kupool.TcpServer.Goroutines.{
  serving, Net, go_to, take_answer, check_name, add_channel, answers, checks, adds, started, Reach,
  here, next,
}
use kupool.TcpServer.Calm.{Calm, calm, later}
use kupool.TcpServer.Atomic.{serve_events, trace, shown, serve_events-trace}
use kupool.TcpServer.Names.{IsDistinct, distinct-served}
use kupool.TcpServer.Overlap.{overlap_lost}

abbrev twice : Net
twice = take_answer 1 (accepted (codes "c1")) (take_answer 0 (accepted (codes "c1")) started)

overlap_lost_example :
    (u : Net) × Reach twice u
    × ((u.conns 1).phase ≡ serving)
    × (lookup (u.conns 1).name u.channels ≡ none)
    × (u.told ≡ (twice.conns 1).name ∷ twice.told)
unfolding take_answer update started lookup
overlap_lost_example = overlap_lost 0 1 twice refl refl refl refl refl

abbrev asked : Net
asked = take_answer 0 (accepted (codes "c1")) started

abbrev passed : Net
passed = check_name 0 asked

abbrev joined : Net
joined = add_channel 0 passed

joined-Calm : Calm started joined
unfolding take_answer check_name go_to update started lookup
joined-Calm =
    later
      (later (later calm (λ i j ci cj e. cc) (answers 0 (accepted (codes "c1")) refl))
        (λ i j ci cj e. ground (arith, ==_iff 0 i)) (checks 0 refl))
      (λ i j ci cj e. ground (arith, ==_iff 0 i, ==_iff 0 j)) (adds 0 refl)

serve_events-trace_example :
    lookup (codes "c1") (serve_events (trace joined-Calm) new_server).channels
    ≡ shown new_server.options.write_wait new_server.options.read_wait
        (codes "c1")
        (lookup (codes "c1") joined.channels)
unfolding new_server
serve_events-trace_example = serve_events-trace new_server joined-Calm (codes "c1") refl

joined-Reach : Reach started joined
unfolding take_answer check_name go_to update started lookup
joined-Reach =
    next (next (next here (answers 0 (accepted (codes "c1")) refl)) (checks 0 refl)) (adds 0 refl)

joined-IsDistinct : IsDistinct joined
unfolding take_answer check_name add_channel go_to update started lookup
joined-IsDistinct = λ i j (ni, _) (nj, _) e. ground (arith, ==_iff 0 i, ==_iff 0 j, ni, nj)

distinct-served_example :
    ((joined.conns 0).phase ≡ serving) ↔ (lookup (joined.conns 0).name joined.channels ≡ some 0)
distinct-served_example = distinct-served joined 0 joined-Reach joined-IsDistinct
