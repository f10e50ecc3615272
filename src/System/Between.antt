-- ===== src/System/Between.antt =====
-- app/server/coordinator.go, broadcastJob, with what the goroutines of the connections do between
-- its two locks.
use kupool.Common.{
  Option-cases, All, Text, nat_key, text_key, lookup, Bytes, Time, ℕ, ◌≡◌, refl, ◌∙◌, inl, inr,
  Option, none, some, List, [], ◌∷◌, ◌++◌, arith,
}
use kupool.Protocol.{Codec, SubmitParams}
use kupool.State.{Session, Coordinator, StateStore, World}
use kupool.Coordinator.{register_session, unregister_session}
use kupool.Coordinator.Broadcast.{told, pushes, push_all-pushes}
use kupool.Coordinator.Phases.{take_snapshot, finish_broadcast, lookup-tell_taken}
use kupool.Submit.{SubmitError, submit}
use kupool.Listener.Rule.{receive-rule}
use kupool.Listener.{put_session, announce, settle, handle_submit, disconnect}
use kupool.Acceptor.{Accepted, ok, err, admit, accept, handshake, open_session}
use kupool.System.{Input, arrived, received, gone, ticked, serve, serve_all}

-- The loop of the coordinator is one goroutine, so no other tick comes in between.
abbrev pub IsOther : Input → Type 0
IsOther (arrived read random) = Unit
IsOther (received id payload since now) = Unit
IsOther (gone id) = Unit
IsOther (ticked d) = ⊥

module _ {S : Type 0} (api : StateStore S) (codec : Codec) (sha256 : Bytes → Bytes) where
  -- The current job, which only the loop changes.
  abbrev Same : Coordinator → Coordinator → Type 0
  Same c d = (d.job_id ≡ c.job_id) × (d.server_nonce ≡ c.server_nonce)

  settle-Same :
      (ch : Text) (p : SubmitParams) (now : Time) (w : World S) (r : Option SubmitError × Session)
      → Same w.coord (settle api codec sha256 ch p now w r).1.coord
  unfolding announce put_session
  settle-Same ch p now w (none, s) = (refl, refl)
  settle-Same ch p now w (some e, s) = (refl, refl)

  pub handle_submit-Same :
      (ch : Text) (p : SubmitParams) (since now : Time) (w : World S)
      → Same w.coord (handle_submit api codec sha256 ch p since now w).1.coord
  unfolding handle_submit
  handle_submit-Same ch p since now w = elim (Option-cases (lookup ch w.coord.sessions)) [
    | inl e ↦ rw (e, handle_submit) (refl, refl)
    | inr (s, e) ↦
        rw (e, handle_submit) (settle-Same ch p now w (submit sha256 w.coord p since now s))
  ]

  admit-Same :
      (r : Accepted (ℕ × Text × Text)) (w : World S) → Same w.coord (admit api codec r w).1.coord
  unfolding open_session register_session
  admit-Same (err e) w = (refl, refl)
  admit-Same (ok (id, user, ch)) w = (ground arith, ground arith)

  serve-Same :
      (x : Input) (w : World S) → IsOther x → Same w.coord (serve api codec sha256 x w).coord
  unfolding serve accept disconnect unregister_session
  serve-Same (arrived read random) w h = admit-Same (handshake api codec read random) w
  serve-Same (received ch payload since now) w h =
      receive-rule api codec sha256 (Same w.coord) ch payload since now w (refl, refl)
        (λ q. handle_submit-Same ch q since now w)
  serve-Same (gone ch) w h = (refl, refl)
  serve-Same (ticked d) w h = absurd h

  serve_all-Same :
      (xs : List Input) (w : World S)
      → All IsOther xs
      → Same w.coord (serve_all api codec sha256 xs w).coord
  unfolding serve_all
  serve_all-Same [] w h = (refl, refl)
  serve_all-Same (x ∷ xs) w h =
      let step = serve-Same x w h.0 in
      let rest = serve_all-Same xs (serve api codec sha256 x w) h.1 in
      (rest.0 ∙ step.0, rest.1 ∙ step.1)

  -- A broadcast whose two phases are parted by any inputs but a tick: behind it the job that was
  -- told is the current one; a channel that had a session in the snapshot holds that job with its
  -- nonce, if it still has a session, which is otherwise as the inputs left it; a channel without
  -- one in the snapshot has what the inputs left it, so that a session opened in between is told of
  -- nothing; and the job is pushed once on the channel of each session of the snapshot.
  pub serve_all-finish_broadcast :
      (xs : List Input) (w : World S) (k : Text)
      → All IsOther xs
      → let p = take_snapshot w in
        let w' = serve_all api codec sha256 xs w in
        let w'' = finish_broadcast codec p w' in
        (w''.coord.job_id ≡ p.job_id)
        × (w''.coord.server_nonce ≡ p.server_nonce)
        × (lookup k w''.coord.sessions ≡ elim (lookup k w.coord.sessions) [
          | none ↦ lookup k w'.coord.sessions
          | some old ↦ told p.job_id p.server_nonce (lookup k w'.coord.sessions)
        ])
        × (w''.log
            ≡ pushes
                (codec.encode_broadcast
                  (record { job_id = p.job_id; server_nonce = p.server_nonce }))
                w.coord.sessions
              ++ w'.log)
  unfolding take_snapshot finish_broadcast
  serve_all-finish_broadcast xs w k others =
      let same = serve_all-Same xs w others in
      let w' = serve_all api codec sha256 xs w in
      (
        same.0,
        same.1,
        lookup-tell_taken (take_snapshot w) k w'.coord.sessions,
        push_all-pushes _ w.coord.sessions w'.log,
      )
