-- ===== src/Coordinator/Phases.antt =====
-- app/server/coordinator.go, broadcastJob: the sessions are collected under the read lock, which is
-- released, and told under the lock that is taken behind the encoding, so the goroutines of the
-- connections may run in between. The program keeps pointers to the sessions; here a name stands
-- for its session, which is the same as long as no name is drawn twice.
use kupool.Common.{
  All, Text, text_beq_iff, nat_key, text_key, Map, lookup, ℕ, ◌≡◌, refl, ◌≢◌, Option, none, some,
  [], ◌∷◌, arith,
}
use kupool.Protocol.{Codec, JobParams}
use kupool.State.{Session, StateStore, World}
use kupool.Coordinator.{tell, push_all, broadcast_job}
use kupool.Coordinator.Broadcast.{told}

pub record Snapshot : Type 0 where
  pub job_id : ℕ
  pub server_nonce : Text
  pub sessions : Map Text Session

unfoldable pub take_snapshot : {S : Type 0} → World S → Snapshot
take_snapshot w = record {
  job_id = w.coord.job_id;
  server_nonce = w.coord.server_nonce;
  sessions = w.coord.sessions;
}

-- What the loop writes to a session, if the snapshot has it.
abbrev pub tell_if : Option Session → Snapshot → Session → Session
tell_if none p s = s
tell_if (some old) p s = record s { latest_job_id = p.job_id; latest_server_nonce = p.server_nonce }

-- The snapshot holds pointers, for which the names stand: 16 random bytes, taken not to be drawn
-- twice.
unfoldable pub tell_taken : Snapshot → Map Text Session → Map Text Session
tell_taken p [] = []
tell_taken p ((k, s) ∷ m) = (k, tell_if (lookup k p.sessions) p s) ∷ tell_taken p m

unfoldable pub finish_broadcast : {S : Type 0} → Codec → Snapshot → World S → World S
finish_broadcast codec p w =
    let msg : JobParams = record { job_id = p.job_id; server_nonce = p.server_nonce } in
    record w {
      coord = record w.coord { sessions = tell_taken p w.coord.sessions };
      log = push_all (codec.encode_broadcast msg) p.sessions w.log;
    }

abbrev IsTaken : Snapshot → Map Text Session → Type 0
IsTaken p = All (λ e. lookup e.0 p.sessions ≢ none)

tell_taken-tell :
    (p : Snapshot) (m : Map Text Session)
    → IsTaken p m
    → tell_taken p m ≡ tell p.job_id p.server_nonce m
unfolding tell_taken tell
tell_taken-tell p [] h = refl
tell_taken-tell p ((k, s) ∷ m) h = ground (arith, h.0, tell_taken-tell p m h.1)

found-cons :
    (j k : Text) (s : Session) (m : Map Text Session)
    → lookup j m ≢ none
    → lookup j ((k, s) ∷ m) ≢ none
unfolding lookup
found-cons j k s m h = ground (arith, h)

found-head : (k : Text) (s : Session) (m : Map Text Session) → lookup k ((k, s) ∷ m) ≢ none
unfolding lookup
found-head k s m = ground (arith, text_beq_iff k k)

all_found :
    (p : Snapshot) (m : Map Text Session)
    → ((k : Text) → lookup k m ≢ none → lookup k p.sessions ≢ none)
    → IsTaken p m
all_found p [] h = tt
all_found p ((k, s) ∷ m) h =
    (h k (found-head k s m), all_found p m (λ j e. h j (found-cons j k s m e)))

-- With nothing in between, the two phases are the broadcast.
pub finish_broadcast-take_snapshot :
    {S : Type 0} (api : StateStore S) (codec : Codec) (w : World S)
    → finish_broadcast codec (take_snapshot w) w ≡ broadcast_job api codec w
unfolding finish_broadcast take_snapshot broadcast_job
finish_broadcast-take_snapshot api codec w =
    rw
      (tell_taken-tell (take_snapshot w) w.coord.sessions
        (all_found (take_snapshot w) w.coord.sessions (λ k e. e)))
      refl

pub lookup-tell_taken :
    (p : Snapshot) (k : Text) (m : Map Text Session)
    → lookup k (tell_taken p m) ≡ elim (lookup k p.sessions) [
      | none ↦ lookup k m
      | some old ↦ told p.job_id p.server_nonce (lookup k m)
    ]
unfolding tell_taken lookup
lookup-tell_taken p k [] = ground arith
lookup-tell_taken p k ((j, s) ∷ m) = ground (arith, text_beq_iff j k, lookup-tell_taken p k m)
