-- ===== src/Listener.antt =====
-- app/server/listener.go: a submission on a channel, the answer to it, and a disconnect.
pub mod Answers
pub mod Rule
pub mod Effects
use kupool.Common.{
  if◌then◌else◌, Text, text_beq, nat_key, text_key, lookup, insert, Bytes, codes, Time, local, ℕ,
  Bool, true, false, Option, none, some, ◌∷◌,
}
use kupool.Protocol.{Codec, Request, SubmitParams, method_submit}
use kupool.State.{
  Session, Coordinator, StateStore, Effect, push, publish, World, with_coord, emit, saving,
}
use kupool.Submit.{SubmitError, invalid_result, task_missing, message, submit}
use kupool.Coordinator.{unregister_session}

unfoldable pub put_session : Text → Session → Coordinator → Coordinator
put_session channel_id s c = record c { sessions = insert channel_id s c.sessions }

module _ {S : Type 0} (api : StateStore S) (codec : Codec) (sha256 : Bytes → Bytes) where
  unfoldable pub respond : Text → ℕ → Bool → Option Text → World S → World S
  respond channel_id id result error =
      emit (
        push channel_id
          (codec.encode_response (record { id = id; result = result; error = error })))

  unfoldable pub respond_error : Text → ℕ → Text → World S → World S
  respond_error channel_id id msg = respond channel_id id false (some msg)

  -- Lines 85 to 89: the accepted submission is saved, then published.
  unfoldable pub announce : SubmitParams → Time → Session → World S → World S
  announce p now s w = record w {
    state =
        saving
          (api.save_user_state s.username s.latest_job_id s.latest_server_nonce s.last_submit_at)
          (saving (api.save_used_nonce s.username p.job_id p.client_nonce) w.state);
    log = publish (record { username = s.username; time = local now }) ∷ w.log;
  }

  -- What is done with the session as `submit` leaves it.
  abbrev pub settle :
      Text
      → SubmitParams
      → Time
      → World S
      → Option SubmitError × Session
      → Option SubmitError × World S
  settle channel_id p now w (some e, s) = (some e, with_coord (put_session channel_id s) w)
  settle channel_id p now w (none, s) =
      (none, announce p now s (with_coord (put_session channel_id s) w))

  unfoldable pub handle_submit :
      Text → SubmitParams → Time → Time → World S → Option SubmitError × World S
  handle_submit channel_id p since now w = elim (lookup channel_id w.coord.sessions) [
    | none ↦ (some task_missing, w)
    | some s ↦ settle channel_id p now w (submit sha256 w.coord p since now s)
  ]

  abbrev pub answer : Text → ℕ → Option SubmitError × World S → World S
  answer channel_id id (none, w) = respond channel_id id true none w
  answer channel_id id (some e, w) = respond_error channel_id id (message e) w

  abbrev pub receive_submit : Text → ℕ → Option SubmitParams → Time → Time → World S → World S
  receive_submit channel_id id none since now w =
      respond_error channel_id id (codes "Invalid result") w
  receive_submit channel_id id (some p) since now w =
      answer channel_id id (handle_submit channel_id p since now w)

  abbrev pub receive_request : Text → Request → Time → Time → World S → World S
  receive_request channel_id req since now w = elim req.id [
    | none ↦ w
    | some id ↦
        if text_beq req.method method_submit
        then receive_submit channel_id id (codec.decode_submit req.params) since now w
        else w
  ]

  unfoldable pub receive : Text → Bytes → Time → Time → World S → World S
  receive channel_id payload since now w = elim (codec.decode_request payload) [
    | none ↦ w
    | some req ↦ receive_request channel_id req since now w
  ]

  unfoldable pub disconnect : Text → World S → World S
  disconnect id = with_coord (unregister_session id)
