-- ===== src/Listener/Rule.antt =====
-- app/server/listener.go, Receive: what holds of the coordinator behind a payload.
use kupool.Common.{
  Bool-cases, Option-cases, Text, text_beq, Bytes, Time, ℕ, inl, inr, Option, none, some,
}
use kupool.Protocol.{Codec, SubmitParams, method_submit}
use kupool.State.{Coordinator, StateStore, World}
use kupool.Submit.{SubmitError}
use kupool.Listener.{handle_submit, respond, respond_error, receive, answer, receive_submit}

module _ {S : Type 0} (api : StateStore S) (codec : Codec) (sha256 : Bytes → Bytes)
    (P : Coordinator → Type 0) where
  answer-rule :
      (ch : Text) (id : ℕ) (r : Option SubmitError × World S)
      → P r.1.coord
      → P (answer api codec sha256 ch id r).coord
  unfolding respond respond_error
  answer-rule ch id (none, w) h = h
  answer-rule ch id (some e, w) h = h

  receive_submit-rule :
      (ch : Text) (id : ℕ) (p : Option SubmitParams) (since now : Time) (w : World S)
      → P w.coord
      → ((q : SubmitParams) → P (handle_submit api codec sha256 ch q since now w).1.coord)
      → P (receive_submit api codec sha256 ch id p since now w).coord
  unfolding respond respond_error
  receive_submit-rule ch id none since now w h sub = h
  receive_submit-rule ch id (some p) since now w h sub = answer-rule ch id _ (sub p)

  -- What holds of the coordinator before a payload, and behind handleSubmit for any parameters,
  -- holds behind the payload.
  pub receive-rule :
      (ch : Text) (payload : Bytes) (since now : Time) (w : World S)
      → P w.coord
      → ((q : SubmitParams) → P (handle_submit api codec sha256 ch q since now w).1.coord)
      → P (receive api codec sha256 ch payload since now w).coord
  unfolding receive
  receive-rule ch payload since now w h sub = elim (Option-cases (codec.decode_request payload)) [
    | inl e ↦ rw (e, receive) h
    | inr (req, e) ↦ elim (Option-cases req.id) [
      | inl e' ↦ rw (e, receive, e') h
      | inr (id, e') ↦ elim (Bool-cases (text_beq req.method method_submit)) [
        | inl hit ↦
            rw (e, receive, e', hit)
              (receive_submit-rule ch id (codec.decode_submit req.params) since now w h sub)
        | inr miss ↦ rw (e, receive, e', miss) h
      ]
    ]
  ]
