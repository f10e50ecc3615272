-- ===== src/Program/Stats.antt =====
-- cmd/kupool-server/main.go, the handler of /stats: what it shows of a memory store.
use kupool.Common.{
  Text, truncate_minute, Stamp, truncate_stamp, stamp_key, ◌%◌, ◌^◌, ◌≡◌, refl, sym, Option, List,
  [], ◌∷◌, arith,
}
use kupool.State.{SubmitEvent}
use kupool.Memory.{memory_stats_store, new_memory_store}
use kupool.Memory.Counts.{increments, count, get-increments}
use kupool.Program.{asked_time, shows, stats_handler}

truncate_twice : (t : Stamp) → truncate_stamp (truncate_stamp t) ≡ truncate_stamp t
unfolding truncate_stamp truncate_minute
truncate_twice t = grind arith

count_minute :
    (u : Text) (t m : Stamp) (es : List SubmitEvent)
    → truncate_stamp t ≡ truncate_stamp m
    → count u t es ≡ count u m es
unfolding count
count_minute u t m [] h = refl
count_minute u t m (e ∷ es) h = rw (h, count_minute u t m es h) refl

-- After any events the handler answers with the user that was asked for and a whole minute, and
-- with the number of the user's events in the minute that it shows, modulo 2^64; that is the minute
-- of the time asked for, or of the present where none was given or it does not parse.
pub stats_handler-count :
    (parse : Text → Option Stamp) (u p : Text) (now : Stamp) (es : List SubmitEvent)
    → let m = truncate_stamp (asked_time parse p now) in
      (stats_handler memory_stats_store parse u p now (increments es new_memory_store)
        ≡ shows u m (count u m es % 2 ^ 64))
      × (truncate_stamp m ≡ m)
unfolding stats_handler
stats_handler-count parse u p now es =
    let t = asked_time parse p now in
    (
      rw
          (
            stats_handler,
            get-increments u t es,
            count_minute u t (truncate_stamp t) es (sym (truncate_twice t)),
          )
          refl,
      truncate_twice t,
    )
