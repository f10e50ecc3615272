-- ===== src/System/Live.antt =====
-- app/server: which channels have a session, against the connections that were admitted and ended.
use kupool.Common.{
  if◌then◌else◌, Option-cases, Text, text_beq, text_beq_iff, nat_key, text_key, lookup,
  lookup-insert, lookup-delete, Bytes, Time, ℕ, ◌≡◌, refl, ap, ◌∙◌, inl, inr, Bool, true, false,
  Option, none, some, List, [], ◌∷◌, arith,
}
use kupool.Protocol.{Codec, SubmitParams}
use kupool.State.{Session, StateStore, World}
use kupool.Coordinator.{unregister_session}
use kupool.Coordinator.Broadcast.{run_round}
use kupool.Submit.{SubmitError, submit}
use kupool.Listener.Rule.{receive-rule}
use kupool.Listener.{put_session, announce, settle, handle_submit, receive, disconnect}
use kupool.Acceptor.{Accepted, ok, err, admit, accept, handshake}
use kupool.Acceptor.Admission.{open_session-Opened}
use kupool.System.{Input, arrived, received, gone, ticked, serve, serve_all}

abbrev is_some {ℓ} : {A : Type ℓ} → Option A → Bool
is_some none = false
is_some (some a) = true

module _ {S : Type 0} (api : StateStore S) (codec : Codec) (sha256 : Bytes → Bytes) where
  abbrev pub has : Text → World S → Bool
  has k w = is_some (lookup k w.coord.sessions)

  -- Whether a channel is live behind an input: it is when a connection is admitted under its name,
  -- it is not when it has ended, and nothing else changes it.
  abbrev admitted_as : Text → Accepted (ℕ × Text × Text) → Bool → Bool
  admitted_as k (ok (id, user, ch)) live = if text_beq ch k then true else live
  admitted_as k (err e) live = live

  abbrev pub live_after : Text → Input → Bool → Bool
  live_after k (arrived read random) live = admitted_as k (handshake api codec read random) live
  live_after k (received ch payload since now) live = live
  live_after k (gone ch) live = if text_beq ch k then false else live
  live_after k (ticked d) live = live

  abbrev pub live_all : Text → List Input → Bool → Bool
  live_all k [] live = live
  live_all k (x ∷ xs) live = live_all k xs (live_after k x live)

  settle-has :
      (ch k : Text) (p : SubmitParams) (now : Time) (w : World S) (s : Session)
      (r : Option SubmitError × Session)
      → lookup ch w.coord.sessions ≡ some s
      → has k (settle api codec sha256 ch p now w r).1 ≡ has k w
  unfolding announce put_session
  settle-has ch k p now w s (none, t) e =
      ground (arith, e, text_beq_iff ch k, lookup-insert ch k t w.coord.sessions)
  settle-has ch k p now w s (some x, t) e =
      ground (arith, e, text_beq_iff ch k, lookup-insert ch k t w.coord.sessions)

  handle_submit-has :
      (ch k : Text) (p : SubmitParams) (since now : Time) (w : World S)
      → has k (handle_submit api codec sha256 ch p since now w).1 ≡ has k w
  unfolding handle_submit
  handle_submit-has ch k p since now w = elim (Option-cases (lookup ch w.coord.sessions)) [
    | inl e ↦ rw (e, handle_submit) refl
    | inr (s, e) ↦
        rw (e, handle_submit) (settle-has ch k p now w s (submit sha256 w.coord p since now s) e)
  ]

  receive-has :
      (ch k : Text) (payload : Bytes) (since now : Time) (w : World S)
      → has k (receive api codec sha256 ch payload since now w) ≡ has k w
  receive-has ch k payload since now w =
      receive-rule api codec sha256 (λ c. is_some (lookup k c.sessions) ≡ has k w) ch payload since
        now w refl (λ q. handle_submit-has ch k q since now w)

  admit-has :
      (k : Text) (r : Accepted (ℕ × Text × Text)) (w : World S)
      → has k (admit api codec r w).1 ≡ admitted_as k r (has k w)
  admit-has k (err e) w = refl
  admit-has k (ok (id, user, ch)) w = ground (arith, (open_session-Opened api codec w ch user k).0)

  serve-has :
      (k : Text) (x : Input) (w : World S)
      → has k (serve api codec sha256 x w) ≡ live_after k x (has k w)
  unfolding serve accept disconnect unregister_session
  serve-has k (arrived read random) w = admit-has k (handshake api codec read random) w
  serve-has k (received ch payload since now) w = receive-has ch k payload since now w
  serve-has k (gone ch) w = ground (arith, lookup-delete ch k w.coord.sessions)
  serve-has k (ticked d) w = ground (arith, (run_round api codec d w k 0).1)

  -- Over any run of the server, for every name: if a connection was admitted under it or a channel
  -- of it ended, then it has a session behind the run exactly when the last of these was an
  -- admission; otherwise exactly when it had one before. Submissions, refused or accepted, and ticks
  -- neither add nor remove one.
  pub serve_all-live :
      (k : Text) (xs : List Input) (w : World S)
      → has k (serve_all api codec sha256 xs w) ≡ live_all k xs (has k w)
  unfolding serve_all
  serve_all-live k [] w = refl
  serve_all-live k (x ∷ xs) w =
      serve_all-live k xs (serve api codec sha256 x w) ∙ ap (live_all k xs) (serve-has k x w)
