-- ===== src/System/Handlers.antt =====
-- app/server: the handlers of the connections on states that differ only in the order of their maps.
use kupool.Common.{
  Bool-cases, Option-cases, Text, text_beq, nat_key, text_key, lookup, lookup-insert_self, Bytes,
  Time, local, ℕ, ◌≡◌, refl, inl, inr, Bool, true, false, Option, none, some,
}
use kupool.Protocol.{Codec, SubmitParams, method_submit}
use kupool.State.{Session, Coordinator, StateStore, World}
use kupool.Submit.{SubmitError, submit}
use kupool.Coordinator.{register_session, new_session}
use kupool.Acceptor.{open_session, restore_user}
use mathlib.Core.Path.{subst}
use kupool.Submit.{message}
use kupool.Listener.{
  put_session, announce, settle, handle_submit, receive, answer, respond, respond_error,
  receive_submit,
}
use kupool.System.Alike.{
  Alike, put_session-Alike, submit-Alike, SameLog-push, SameLog-publish, AlikeWorld,
}

module _ {S : Type 0} (api : StateStore S) (codec : Codec) (sha256 : Bytes → Bytes) where
  settle-Alike :
      (ch : Text) (p : SubmitParams) (now : Time) (w v : World S) (r : Option SubmitError × Session)
      → AlikeWorld w v
      → AlikeWorld (settle api codec sha256 ch p now w r).1 (settle api codec sha256 ch p now v r).1
        × ((settle api codec sha256 ch p now w r).0 ≡ (settle api codec sha256 ch p now v r).0)
  unfolding announce
  settle-Alike ch p now w v (some e, s) h = (
    record { coord = put_session-Alike ch s w.coord v.coord h.coord; state = h.state; log = h.log },
    refl,
  )
  settle-Alike ch p now w v (none, s) h = (
    record {
      coord = put_session-Alike ch s w.coord v.coord h.coord;
      state = rw h.state refl;
      log = SameLog-publish w.log v.log (record { username = s.username; time = local now }) h.log;
    },
    refl,
  )

  handle_submit-Alike :
      (ch : Text) (p : SubmitParams) (since now : Time) (w v : World S)
      → AlikeWorld w v
      → let r = handle_submit api codec sha256 ch p since now w in
        let q = handle_submit api codec sha256 ch p since now v in AlikeWorld r.1 q.1 × (r.0 ≡ q.0)
  unfolding handle_submit
  handle_submit-Alike ch p since now w v h = elim (Option-cases (lookup ch v.coord.sessions)) [
    | inl e ↦ rw (h.coord.sessions ch, e, handle_submit) (h, refl)
    | inr (s, e) ↦
        rw
          (
            h.coord.sessions ch,
            e,
            handle_submit,
            submit-Alike sha256 w.coord v.coord p since now s h.coord,
          )
          (settle-Alike ch p now w v (submit sha256 v.coord p since now s) h)
  ]

  respond-Alike :
      (ch : Text) (id : ℕ) (result : Bool) (error : Option Text) (w v : World S)
      → AlikeWorld w v
      → AlikeWorld
          (respond api codec sha256 ch id result error w)
          (respond api codec sha256 ch id result error v)
  unfolding respond
  respond-Alike ch id result error w v h = record {
    coord = h.coord;
    state = h.state;
    log = SameLog-push ch _ w.log v.log h.log;
  }

  answered-Alike :
      (ch : Text) (id : ℕ) (o : Option SubmitError) (w v : World S)
      → AlikeWorld w v
      → AlikeWorld (answer api codec sha256 ch id (o, w)) (answer api codec sha256 ch id (o, v))
  unfolding respond_error
  answered-Alike ch id none w v h = respond-Alike ch id true none w v h
  answered-Alike ch id (some x) w v h = respond-Alike ch id false (some (message x)) w v h

  answer-Alike :
      (ch : Text) (id : ℕ) (r q : Option SubmitError × World S)
      → AlikeWorld r.1 q.1 × (r.0 ≡ q.0)
      → AlikeWorld (answer api codec sha256 ch id r) (answer api codec sha256 ch id q)
  answer-Alike ch id r q h =
      subst
        (λ o. AlikeWorld (answer api codec sha256 ch id r) (answer api codec sha256 ch id (o, q.1)))
        h.1 (answered-Alike ch id r.0 r.1 q.1 h.0)

  receive_submit-Alike :
      (ch : Text) (id : ℕ) (p : Option SubmitParams) (since now : Time) (w v : World S)
      → AlikeWorld w v
      → AlikeWorld
          (receive_submit api codec sha256 ch id p since now w)
          (receive_submit api codec sha256 ch id p since now v)
  unfolding respond_error
  receive_submit-Alike ch id none since now w v h = respond-Alike ch id false _ w v h
  receive_submit-Alike ch id (some p) since now w v h =
      answer-Alike ch id _ _ (handle_submit-Alike ch p since now w v h)

  pub receive-Alike :
      (ch : Text) (payload : Bytes) (since now : Time) (w v : World S)
      → AlikeWorld w v
      → AlikeWorld
          (receive api codec sha256 ch payload since now w)
          (receive api codec sha256 ch payload since now v)
  unfolding receive
  receive-Alike ch payload since now w v h = elim (Option-cases (codec.decode_request payload)) [
    | inl e ↦ rw (e, receive) h
    | inr (req, e) ↦ elim (Option-cases req.id) [
      | inl e' ↦ rw (e, receive, e') h
      | inr (id, e') ↦ elim (Bool-cases (text_beq req.method method_submit)) [
        | inl hit ↦
            rw (e, receive, e', hit)
              (receive_submit-Alike ch id (codec.decode_submit req.params) since now w v h)
        | inr miss ↦ rw (e, receive, e', miss) h
      ]
    ]
  ]

  register_session-Alike :
      (ch user : Text) (c d : Coordinator)
      → Alike c d
      → Alike (register_session ch user c) (register_session ch user d)
  unfolding register_session put_session
  register_session-Alike ch user c d a = put_session-Alike ch (new_session ch user) c d a

  -- A session is opened alike, from what the state store has of the user.
  pub open_session-Alike :
      (ch user : Text) (w v : World S)
      → AlikeWorld w v
      → AlikeWorld (open_session api codec ch user w) (open_session api codec ch user v)
  unfolding open_session register_session put_session
  open_session-Alike ch user w v h =
      let first = register_session-Alike ch user w.coord v.coord h.coord in
      let fresh = new_session ch user in
      elim (Option-cases v.state) [
        | inl e ↦
            rw (h.state, e, open_session) (record { coord = first; state = h.state; log = h.log })
        | inr (st, e) ↦
            let s = restore_user (api.load_user_state user st) fresh in
            rw
              (
                h.state,
                e,
                open_session,
                lookup-insert_self ch fresh w.coord.sessions,
                lookup-insert_self ch fresh v.coord.sessions,
              )
              (record {
                coord =
                    put_session-Alike ch s (register_session ch user w.coord)
                      (register_session ch user v.coord) first;
                state = h.state;
                log = h.log;
              })
      ]
