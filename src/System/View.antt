-- ===== src/System/View.antt =====
-- app/server: the state of the server without the order of its maps, as a quotient, and what each
-- input does to it.
use kupool.Common.{
  if◌then◌else◌, Option-cases, Text, text_beq, text_beq_iff, nat_key, text_key, lookup,
  lookup-insert_self, Bytes, ℕ, ◌+◌, ◌≡◌, refl, sym, ap, ◌∙◌, inl, inr, true, false, Option, none,
  some, [], ◌∷◌, arith,
}
use native.Mathlib.Nat.{ℕ_set}
use mathlib.Core.Quot
use mathlib.Core.Quot.{Quot, Quot-set}
use kupool.Frame.{Frame, op_binary}
use kupool.Protocol.{Codec}
use kupool.State.{StateStore, World}
use kupool.State.{Effect, emit, write_frame}
use kupool.Coordinator.{register_session, new_session}
use kupool.Acceptor.{ok, admit, accept, handshake, open_session}
use kupool.Acceptor.Admission.{first_session, open_session-Opened, open_session-log}
use kupool.System.{Input, arrived, serve}
use kupool.System.Sessions.{IsValid}
use kupool.System.Invariant.{serve-IsValid}
use kupool.System.Alike.{AlikeWorld, pushed_on, times_written}
use kupool.System.Order.{serve-Alike}

abbrev pub ValidWorld : Type 0 → Type 0
ValidWorld S = (w : World S) × IsValid w.coord

abbrev pub SameState : {S : Type 0} → ValidWorld S → ValidWorld S → Type 0
SameState v w = AlikeWorld v.0 w.0

abbrev pub View : Type 0 → Type 0
View S = Quot (SameState {S = S})

module _ {S : Type 0} (api : StateStore S) (codec : Codec) (sha256 : Bytes → Bytes) where
  unfoldable pub serve_valid : Input → ValidWorld S → ValidWorld S
  serve_valid x v = (serve api codec sha256 x v.0, serve-IsValid api codec sha256 x v.0 v.1)

  unfoldable pub serve_view : Input → View S → View S
  unfolding serve_valid
  serve_view x =
      Quot.lift Quot-set (λ v. Quot.mk (serve_valid x v))
        (λ v w h. Quot.sound (serve-Alike api codec sha256 x v.0 w.0 v.1 w.1 h))

  open_session-rest :
      (ch user : Text) (w : World S)
      → let c = (open_session api codec ch user w).coord in
        (c.server_nonce ≡ w.coord.server_nonce)
        × (c.expire_after ≡ w.coord.expire_after)
        × (c.nonce_interval ≡ w.coord.nonce_interval)
        × (c.history_window ≡ w.coord.history_window)
  unfolding open_session register_session
  open_session-rest ch user w = (ground arith, ground arith, ground arith, ground arith)

  -- What stays when two sessions are opened.
  twice :
      (a u b v : Text) (w : World S)
      → let w' = open_session api codec a u (open_session api codec b v w) in
        (w'.coord.history ≡ w.coord.history)
        × (w'.coord.job_id ≡ w.coord.job_id)
        × (w'.coord.server_nonce ≡ w.coord.server_nonce)
        × (w'.coord.expire_after ≡ w.coord.expire_after)
        × (w'.state ≡ w.state)
        × (w'.log ≡ w.log)
        × (w'.coord.nonce_interval ≡ w.coord.nonce_interval)
        × (w'.coord.history_window ≡ w.coord.history_window)
  twice a u b v w =
      let w' = open_session api codec b v w in
      let one = open_session-Opened api codec w b v a in
      let two = open_session-Opened api codec w' a u a in
      let rest = open_session-rest b v w in
      let rest' = open_session-rest a u w' in
      (
        two.2 ∙ one.2,
        two.1 ∙ one.1,
        rest'.0 ∙ rest.0,
        rest'.1 ∙ rest.1,
        two.3 ∙ one.3,
        open_session-log api codec w' a u ∙ open_session-log api codec w b v,
        rest'.2 ∙ rest.2,
        rest'.3 ∙ rest.3,
      )

  -- The session of a channel behind the opening of two.
  second_opened :
      (a u b v k : Text) (w : World S)
      → lookup k (open_session api codec a u (open_session api codec b v w)).coord.sessions ≡ (
          if text_beq a k
          then some (first_session api codec w.state a u)
          else if text_beq b k
          then some (first_session api codec w.state b v)
          else lookup k w.coord.sessions)
  second_opened a u b v k w =
      let w' = open_session api codec b v w in
      let one = open_session-Opened api codec w b v k in
      (open_session-Opened api codec w' a u k).0 ∙ rw (one.3, one.0) refl

  sessions_comm :
      (a u b v k : Text) (w : World S)
      → text_beq a b ≡ false
      → lookup k (open_session api codec a u (open_session api codec b v w)).coord.sessions
        ≡ lookup k (open_session api codec b v (open_session api codec a u w)).coord.sessions
  sessions_comm a u b v k w apart = ground (
    arith,
    second_opened a u b v k w,
    second_opened b v a u k w,
    text_beq_iff a k,
    text_beq_iff b k,
    text_beq_iff a b,
    apart,
  )

  open_session_comm :
      (a u b v : Text) (w : World S)
      → text_beq a b ≡ false
      → AlikeWorld
          (open_session api codec a u (open_session api codec b v w))
          (open_session api codec b v (open_session api codec a u w))
  open_session_comm a u b v w apart =
      let here = twice a u b v w in
      let there = twice b v a u w in
      record {
        coord = record {
          sessions = λ k. sessions_comm a u b v k w apart;
          history = λ j. rw (here.0, there.0) refl;
          job_id = here.1 ∙ sym there.1;
          server_nonce = here.2 ∙ sym there.2;
          expire_after = here.3 ∙ sym there.3;
          nonce_interval = here.6 ∙ sym there.6;
          history_window = here.7 ∙ sym there.7;
        };
        state = here.4 ∙ sym there.4;
        log =
            rw (here.5, there.5)
              (record { published = refl; pushed = λ k. refl; written = λ c b. refl });
      }

  open_session-emit :
      (a u : Text) (x : Effect) (w : World S)
      → open_session api codec a u (emit x w) ≡ emit x (open_session api codec a u w)
  unfolding open_session register_session
  open_session-emit a u x w = elim (Option-cases w.state) [
    | inl e ↦ rw (e, open_session) refl
    | inr (st, e) ↦
        rw (e, open_session, lookup-insert_self a (new_session a u) w.coord.sessions) refl
  ]

  -- The answer to a request that was admitted.
  abbrev pub welcome : ℕ → Effect
  welcome id =
      write_frame op_binary
        (codec.encode_response (record { id = id; result = true; error = none }))

  admit-log :
      (i : ℕ) (a u : Text) (w : World S)
      → (admit api codec (ok (i, u, a)) w).1.log ≡ welcome i ∷ w.log
  admit-log i a u w = ap (◌∷◌ (welcome i)) (open_session-log api codec w a u)

  arrived-log :
      (read : Option Frame) (buf : Option Bytes) (i : ℕ) (u a : Text) (w : World S)
      → handshake api codec read buf ≡ ok (i, u, a)
      → (serve api codec sha256 (arrived read buf) w).log ≡ welcome i ∷ w.log
  unfolding serve accept
  arrived-log read buf i u a w one = ap (λ r. (admit api codec r w).1.log) one ∙ admit-log i a u w

  -- Two admissions in either order.
  admit_comm :
      (i j : ℕ) (a u b v : Text) (w : World S)
      → text_beq a b ≡ false
      → AlikeWorld
          (admit api codec (ok (i, u, a)) (admit api codec (ok (j, v, b)) w).1).1
          (admit api codec (ok (j, v, b)) (admit api codec (ok (i, u, a)) w).1).1
  unfolding times_written pushed_on
  admit_comm i j a u b v w apart =
      let h = open_session_comm a u b v w apart in
      rw
        (
          open_session-emit a u (welcome j) (open_session api codec b v w),
          open_session-emit b v (welcome i) (open_session api codec a u w),
        )
        (record {
          coord = h.coord;
          state = h.state;
          log = record {
            published = h.log.published;
            pushed = h.log.pushed;
            written = λ c f. ground (arith, h.log.written c f);
          };
        })

  -- How often a frame was written, of a state without the order.
  unfoldable pub view_written : ℕ → Bytes → View S → ℕ
  view_written code bytes =
      Quot.lift ℕ_set (λ v. times_written code bytes v.0.log) (λ v w h. h.log.written code bytes)

  module _ (read read' : Option Frame) (buf buf' : Option Bytes) (i j : ℕ) (a u b v : Text)
      (one : handshake api codec read buf ≡ ok (i, u, a))
      (two : handshake api codec read' buf' ≡ ok (j, v, b)) where
    order_forgotten :
        text_beq a b ≡ false
        → (state : View S)
        → serve_view (arrived read buf) (serve_view (arrived read' buf') state)
          ≡ serve_view (arrived read' buf') (serve_view (arrived read buf) state)
    unfolding serve_view serve_valid serve accept
    order_forgotten apart =
        Quot.ind (λ s. Quot-set _ _)
          (λ w. Quot.sound (rw (one, two) (admit_comm i j a u b v w.0 apart)))

    both_written :
        (code : ℕ) (bytes : Bytes) (w : World S)
        → times_written code bytes
            (serve api codec sha256
              (arrived read buf)
              (serve api codec sha256 (arrived read' buf') w)).log
          ≡ times_written code bytes (welcome i ∷ welcome j ∷ []) + times_written code bytes w.log
    unfolding times_written
    both_written code bytes w =
        ap (times_written code bytes) (
          arrived-log read buf i u a (serve api codec sha256 (arrived read' buf') w) one
          ∙ ap (◌∷◌ (welcome i)) (arrived-log read' buf' j v b w two))
        ∙ ground arith

    answers_written :
        (code : ℕ) (bytes : Bytes) (state : View S)
        → view_written code bytes
            (serve_view (arrived read buf) (serve_view (arrived read' buf') state))
          ≡ times_written code bytes (welcome i ∷ welcome j ∷ []) + view_written code bytes state
    unfolding serve_view serve_valid view_written
    answers_written code bytes = Quot.ind (λ s. ℕ_set _ _) (λ w. both_written code bytes w.0)

  -- The order in which two connections are admitted does not matter: where their handshakes give
  -- different names, every well-formed state of the server becomes the same, if it is seen without
  -- the order of its maps and without the order in which connections are answered; and each of the
  -- two answers has been written once more.
  pub serve_view_comm :
      (read read' : Option Frame) (buf buf' : Option Bytes) (i j : ℕ) (a u b v : Text)
      → handshake api codec read buf ≡ ok (i, u, a)
      → handshake api codec read' buf' ≡ ok (j, v, b)
      → text_beq a b ≡ false
      → (state : View S)
      → (serve_view (arrived read buf) (serve_view (arrived read' buf') state)
          ≡ serve_view (arrived read' buf') (serve_view (arrived read buf) state))
        × ((code : ℕ) (bytes : Bytes)
            → view_written code bytes
                (serve_view (arrived read buf) (serve_view (arrived read' buf') state))
              ≡ times_written code bytes (welcome i ∷ welcome j ∷ [])
                + view_written code bytes state)
  serve_view_comm read read' buf buf' i j a u b v one two apart state = (
    order_forgotten read read' buf buf' i j a u b v one two apart state,
    λ code bytes. answers_written read read' buf buf' i j a u b v one two code bytes state,
  )
