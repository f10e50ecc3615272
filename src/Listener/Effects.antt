-- ===== src/Listener/Effects.antt =====
-- app/server/listener.go: what a submission does outside the session that sends it.
use kupool.Common.{
  Option-cases, Text, text_beq, nat_key, text_key, lookup, lookup-insert_ne, Bytes, Time, local,
  ◌≡◌, refl, ◌⊎◌, inl, inr, false, Option, none, some, ◌∷◌, arith,
}
use kupool.Protocol.{Codec, SubmitParams}
use kupool.State.{Session, StateStore, publish, World}
use kupool.Submit.{SubmitError, submit}
use kupool.Listener.{settle, put_session, announce, handle_submit}

module _ {S : Type 0} (api : StateStore S) (codec : Codec) (sha256 : Bytes → Bytes) where
  -- A submission on a registered channel publishes one event, with the user's name and the time of
  -- the acceptance, if it is accepted, and none if it is refused; a refusal leaves the state store
  -- as it was.
  pub handle_submit-log :
      (ch : Text) (p : SubmitParams) (since now : Time) (w : World S) (s : Session)
      → lookup ch w.coord.sessions ≡ some s
      → let r = handle_submit api codec sha256 ch p since now w in
        (r.0 ≡ (submit sha256 w.coord p since now s).0)
        × (r.1.log ≡ elim r.0 [
          | none ↦
              publish (record {
                username = (submit sha256 w.coord p since now s).1.username;
                time = local now;
              })
              ∷ w.log
          | some e ↦ w.log
        ])
        × ((r.0 ≡ none) ⊎ (r.1.state ≡ w.state))
  unfolding handle_submit announce
  handle_submit-log ch p since now w s known = (ground arith, ground arith, ground arith)

  abbrev Untouched : Text → World S → World S → Type 0
  Untouched k w w' =
      (lookup k w'.coord.sessions ≡ lookup k w.coord.sessions)
      × (w'.coord.job_id ≡ w.coord.job_id)
      × (w'.coord.server_nonce ≡ w.coord.server_nonce)
      × (w'.coord.history ≡ w.coord.history)

  settle-Untouched :
      (ch k : Text) (p : SubmitParams) (now : Time) (w : World S) (r : Option SubmitError × Session)
      → text_beq ch k ≡ false
      → Untouched k w (settle api codec sha256 ch p now w r).1
  unfolding announce put_session
  settle-Untouched ch k p now w (none, s) other =
      (lookup-insert_ne ch k s w.coord.sessions other, refl, refl, refl)
  settle-Untouched ch k p now w (some e, s) other =
      (lookup-insert_ne ch k s w.coord.sessions other, refl, refl, refl)

  -- A submission touches no other session, and neither the current job nor the history.
  pub handle_submit-frame :
      (ch k : Text) (p : SubmitParams) (since now : Time) (w : World S)
      → text_beq ch k ≡ false
      → Untouched k w (handle_submit api codec sha256 ch p since now w).1
  unfolding handle_submit
  handle_submit-frame ch k p since now w other = elim (Option-cases (lookup ch w.coord.sessions)) [
    | inl e ↦ rw (e, handle_submit) (refl, refl, refl, refl)
    | inr (s, e) ↦
        rw (e, handle_submit)
          (settle-Untouched ch k p now w (submit sha256 w.coord p since now s) other)
  ]
