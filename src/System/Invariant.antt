-- ===== src/System/Invariant.antt =====
-- app/server: what holds of the coordinator's sessions and jobs in every state of the server.
use kupool.Common.{
  Option-cases, Text, nat_key, text_key, lookup, lookup-insert_self, Bytes, Time, Duration, ℕ, ◌≡◌,
  refl, ◌∙◌, inl, inr, Bool, true, false, Option, none, some, List, [], ◌∷◌, arith,
}
use kupool.Frame.{Frame}
use kupool.Protocol.{Codec, SubmitParams}
use kupool.State.{Session, Coordinator, StateStore, World}
use kupool.Coordinator.{
  Draw, new_session, register_session, unregister_session, rotate_job, broadcast_job, run, restore,
  new_coordinator,
}
use kupool.Submit.{
  SubmitError, submit, check_submit, select_job, limit_rate, check_duplicate, check_result,
  record_nonce,
}
use kupool.Listener.Rule.{receive-rule}
use kupool.Listener.{put_session, announce, settle, handle_submit, receive, disconnect}
use kupool.Acceptor.{Accepted, ok, err, admit, accept, handshake, open_session, restore_user}
use kupool.System.{Input, arrived, received, gone, ticked, serve, serve_all, start}
use kupool.System.Sessions.{
  IsKeyed, IsValid, IsFit, delete-IsKeyed, tell-IsKeyed, lookup-IsKeyed, put_session-IsFit,
  register_session-IsFit, restore_user-channel_id,
}

module _ {S : Type 0} (api : StateStore S) (codec : Codec) (sha256 : Bytes → Bytes) where
  pub submit-channel_id :
      (c : Coordinator) (p : SubmitParams) (since now : Time) (s : Session)
      → (submit sha256 c p since now s).1.channel_id ≡ s.channel_id
  unfolding submit check_submit select_job limit_rate check_duplicate check_result record_nonce
  submit-channel_id c p since now s = ground arith

  module _ (begun : Bool) where
    settle-IsFit :
        (ch : Text) (p : SubmitParams) (now : Time) (w : World S) (r : Option SubmitError × Session)
        → r.1.channel_id ≡ ch
        → IsFit begun w.coord
        → IsFit begun (settle api codec sha256 ch p now w r).1.coord
    unfolding announce
    settle-IsFit ch p now w (none, s) e v = put_session-IsFit begun ch s w.coord e v
    settle-IsFit ch p now w (some x, s) e v = put_session-IsFit begun ch s w.coord e v

    handle_submit-IsFit :
        (ch : Text) (p : SubmitParams) (since now : Time) (w : World S)
        → IsFit begun w.coord
        → IsFit begun (handle_submit api codec sha256 ch p since now w).1.coord
    unfolding handle_submit
    handle_submit-IsFit ch p since now w v = elim (Option-cases (lookup ch w.coord.sessions)) [
      | inl e ↦ rw (e, handle_submit) v
      | inr (s, e) ↦
          rw (e, handle_submit)
            (settle-IsFit ch p now w (submit sha256 w.coord p since now s)
              (submit-channel_id w.coord p since now s ∙ lookup-IsKeyed ch w.coord.sessions s v.0 e)
              v)
    ]

    receive-IsFit :
        (ch : Text) (payload : Bytes) (since now : Time) (w : World S)
        → IsFit begun w.coord
        → IsFit begun (receive api codec sha256 ch payload since now w).coord
    receive-IsFit ch payload since now w v =
        receive-rule api codec sha256 (IsFit begun) ch payload since now w v
          (λ q. handle_submit-IsFit ch q since now w v)

    open_session-IsFit :
        (ch user : Text) (w : World S)
        → IsFit begun w.coord
        → IsFit begun (open_session api codec ch user w).coord
    unfolding open_session register_session put_session
    open_session-IsFit ch user w v = elim (Option-cases w.state) [
      | inl e ↦ rw (e, open_session) (register_session-IsFit begun ch user w.coord v)
      | inr (st, e) ↦
          rw (e, open_session, lookup-insert_self ch (new_session ch user) w.coord.sessions)
            (put_session-IsFit begun ch
              (restore_user (api.load_user_state user st) (new_session ch user))
              (register_session ch user w.coord)
              (restore_user-channel_id (api.load_user_state user st) (new_session ch user))
              (register_session-IsFit begun ch user w.coord v))
    ]

    admit-IsFit :
        (r : Accepted (ℕ × Text × Text)) (w : World S)
        → IsFit begun w.coord
        → IsFit begun (admit api codec r w).1.coord
    admit-IsFit (err e) w v = v
    admit-IsFit (ok (id, user, ch)) w v = open_session-IsFit ch user w v

    accept-IsFit :
        (read : Option Frame) (random : Option Bytes) (w : World S)
        → IsFit begun w.coord
        → IsFit begun (accept api codec read random w).1.coord
    unfolding accept
    accept-IsFit read random w v = admit-IsFit (handshake api codec read random) w v

    run-IsFit :
        (d : Draw) (w : World S) → IsKeyed w.coord.sessions → IsFit begun (run api codec d w).coord
    unfolding run rotate_job broadcast_job
    run-IsFit d w h = (
      tell-IsKeyed _ _ w.coord.sessions h,
      λ _. (record { nonce = _; created_at = _ }, lookup-insert_self _ _ w.coord.history, refl),
    )

    serve-IsFit :
        (x : Input) (w : World S)
        → IsFit begun w.coord
        → IsFit begun (serve api codec sha256 x w).coord
    unfolding serve disconnect unregister_session
    serve-IsFit (arrived read random) w v = accept-IsFit read random w v
    serve-IsFit (received ch payload since now) w v = receive-IsFit ch payload since now w v
    serve-IsFit (gone id) w v = (delete-IsKeyed id w.coord.sessions v.0, v.1)
    serve-IsFit (ticked d) w v = run-IsFit d w v.0

    serve_all-IsFit :
        (xs : List Input) (w : World S)
        → IsFit begun w.coord
        → IsFit begun (serve_all api codec sha256 xs w).coord
    unfolding serve_all
    serve_all-IsFit [] w v = v
    serve_all-IsFit (x ∷ xs) w v =
        serve_all-IsFit xs (serve api codec sha256 x w) (serve-IsFit x w v)

  pub serve-IsValid :
      (x : Input) (w : World S) → IsValid w.coord → IsValid (serve api codec sha256 x w).coord
  serve-IsValid x w v =
      let fit = serve-IsFit true x w (v.is_keyed, λ _. v.is_current) in
      record { is_keyed = fit.0; is_current = fit.1 refl }

  restore-sessions :
      (now : Time) (w : World S) → (restore api codec now w).coord.sessions ≡ w.coord.sessions
  unfolding restore
  restore-sessions now w = ground arith

  start-IsKeyed :
      (interval expire window : Duration) (state : Option S)
      → IsKeyed (start api codec sha256 interval expire window state).coord.sessions
  unfolding start new_coordinator
  start-IsKeyed interval expire window state = tt

  -- The server starts without sessions. Whatever connections, payloads and ends of channels come
  -- before the loop restores the coordinator, between that and its first round, and with further
  -- ticks behind it, in each of these states every session stands under its own channel and no
  -- channel twice; and behind the first round the current job is in the history with its nonce.
  pub serve_all-start-IsValid :
      (interval expire window : Duration) (state : Option S) (now : Time) (d : Draw)
      (before between behind : List Input)
      → let early =
          serve_all api codec sha256 before (start api codec sha256 interval expire window state) in
        let loaded = serve_all api codec sha256 between (restore api codec now early) in
        IsKeyed early.coord.sessions
        × IsKeyed loaded.coord.sessions
        × IsValid (serve_all api codec sha256 behind (run api codec d loaded)).coord
  serve_all-start-IsValid interval expire window state now d before between behind =
      let w = start api codec sha256 interval expire window state in
      let early =
        serve_all-IsFit false before w (start-IsKeyed interval expire window state, λ e. cc) in
      let restored = restore api codec now (serve_all api codec sha256 before w) in
      let loaded =
        serve_all-IsFit false between restored
          (rw (restore-sessions now (serve_all api codec sha256 before w)) early.0, λ e. cc) in
      let fit = serve_all-IsFit true behind _ (run-IsFit true d _ loaded.0) in
      (early.0, loaded.0, record { is_keyed = fit.0; is_current = fit.1 refl })
