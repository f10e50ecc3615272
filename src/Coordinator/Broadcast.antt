-- ===== src/Coordinator/Broadcast.antt =====
-- app/server/coordinator.go: what one round of the loop gives to the sessions.
use kupool.Common.{
  ◌==◌, if◌then◌else◌, Text, nat_key, text_key, Map, lookup, lookup-insert, Bytes, hex_encode, ℕ,
  ◌≡◌, refl, sym, ◌∙◌, Option, none, some, List, [], ◌∷◌, ◌++◌, arith,
}
use mathlib.Core.List.{append_assoc}
use kupool.Protocol.{Codec}
use kupool.State.{Session, StateStore, Effect, push, World}
use kupool.Coordinator.{Draw, next_id, tell, push_all, rotate_job, broadcast_job, run}

abbrev pub told : ℕ → Text → Option Session → Option Session
told job nonce none = none
told job nonce (some s) = some (record s { latest_job_id = job; latest_server_nonce = nonce })

lookup-tell :
    (job : ℕ) (nonce k : Text) (m : Map Text Session)
    → lookup k (tell job nonce m) ≡ told job nonce (lookup k m)
unfolding lookup tell
lookup-tell job nonce k [] = refl
lookup-tell job nonce k ((j, s) ∷ m) = ground (arith, lookup-tell job nonce k m)

-- The messages of a broadcast, newest first.
abbrev pub pushes : Bytes → Map Text Session → List Effect
pushes bytes [] = []
pushes bytes ((k, s) ∷ m) = pushes bytes m ++ push s.channel_id bytes ∷ []

pub push_all-pushes :
    (bytes : Bytes) (m : Map Text Session) (log : List Effect)
    → push_all bytes m log ≡ pushes bytes m ++ log
unfolding push_all
push_all-pushes bytes [] log = refl
push_all-pushes bytes ((k, s) ∷ m) log =
    push_all-pushes bytes m (push s.channel_id bytes ∷ log)
    ∙ sym (append_assoc (pushes bytes m) (push s.channel_id bytes ∷ []) log)

module _ {S : Type 0} (api : StateStore S) (codec : Codec) where
  -- After a round every session, and no other channel, holds the new job and the new nonce and is
  -- otherwise as it was; the history has the new job and all other jobs as before; and each
  -- session was sent the job once.
  pub run_round :
      (d : Draw) (w : World S) (k : Text) (j : ℕ)
      → let w' = run api codec d w in
        let id : ℕ = next_id w.coord.job_id in
        let nonce : Text = hex_encode d.buf in
        (w'.coord.job_id ≡ id)
        × (lookup k w'.coord.sessions ≡ told id nonce (lookup k w.coord.sessions))
        × (lookup j w'.coord.history ≡ (
            if id == j
            then some (record { nonce = nonce; created_at = d.created_at })
            else lookup j w.coord.history))
        × (w'.log
            ≡ pushes
                (codec.encode_broadcast (record { job_id = id; server_nonce = nonce }))
                w.coord.sessions
              ++ w.log)
  unfolding run rotate_job broadcast_job
  run_round d w k j = (
    refl,
    lookup-tell _ _ k w.coord.sessions,
    lookup-insert _ j _ w.coord.history,
    push_all-pushes _ w.coord.sessions w.log,
  )
