-- ===== src/Listener/Answers.antt =====
-- app/server/listener.go, Receive: the answers to what a client sends.
use kupool.Common.{
  Option-cases, Text, text_beq_iff, Bytes, Time, ℕ, ◌≡◌, ◌≢◌, ◌⊎◌, inl, inr, true, false, none,
  some, ◌∷◌, arith,
}
use kupool.Protocol.{Codec, Request, SubmitParams, method_submit}
use kupool.State.{StateStore, push, World}
use kupool.Submit.{message}
use kupool.Listener.{respond, respond_error, handle_submit, receive}

module _ {S : Type 0} (api : StateStore S) (codec : Codec) (sha256 : Bytes → Bytes) where
  -- A payload that is no submit request with an id changes nothing and is not answered.
  pub receive_ignores :
      (ch : Text) (payload : Bytes) (since now : Time) (w : World S)
      → ((req : Request)
          → codec.decode_request payload ≡ some req
          → (req.method ≢ method_submit) ⊎ (req.id ≡ none))
      → receive api codec sha256 ch payload since now w ≡ w
  unfolding receive
  receive_ignores ch payload since now w h = elim (Option-cases (codec.decode_request payload)) [
    | inl e ↦ rw (e, receive)
    | inr (req, e) ↦
        rw (e, receive) (ground (arith, h req e, text_beq_iff req.method method_submit))
  ]

  -- A submit request with an id is answered once, on its channel and under its id, behind all that
  -- the handler of the submission did: with success if that accepted it, else with its error.
  pub receive_answers :
      (ch : Text) (payload : Bytes) (since now : Time) (w : World S) (req : Request) (id : ℕ)
      (p : SubmitParams)
      → codec.decode_request payload ≡ some req
      → req.method ≡ method_submit
      → req.id ≡ some id
      → codec.decode_submit req.params ≡ some p
      → let w' = receive api codec sha256 ch payload since now w in
        let r = handle_submit api codec sha256 ch p since now w in
        (w'.log
          ≡ push ch (
              codec.encode_response (elim r.0 [
                | none ↦ record { id = id; result = true; error = none }
                | some e ↦ record { id = id; result = false; error = some (message e) }
              ]))
            ∷ r.1.log)
        × (w'.coord ≡ r.1.coord)
        × (w'.state ≡ r.1.state)
  unfolding receive respond respond_error
  receive_answers ch payload since now w req id p decodes is_submit has_id has_params =
      let same = text_beq_iff req.method method_submit in
      (ground (arith, same), ground (arith, same), ground (arith, same))
