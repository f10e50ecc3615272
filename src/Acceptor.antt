-- ===== src/Acceptor.antt =====
-- app/server/acceptor.go: the handshake of a new connection.
pub mod Admission
use kupool.Common.{
  ◌==◌, if◌then◌else◌, Text, text_beq, nat_key, text_key, lookup, insert, Bytes, hex_encode, ℕ,
  true, Option, none, some, [], ◌∷◌,
}
use kupool.Frame.{Frame, op_binary}
use kupool.Protocol.{Codec, Request, AuthorizeParams, method_authorize}
use kupool.State.{
  Session, SavedJob, Coordinator, StateStore, Effect, write_frame, World, with_coord, emit,
}
use kupool.Coordinator.{register_session}

-- `read_failed` and `random_failed` stand for the errors of the connection and of crypto/rand.
pub data AcceptError : Type 0 where
  read_failed invalid_opcode bad_message unauthorized random_failed : AcceptError

pub data Accepted {ℓ} (A : Type ℓ) : Type ℓ where
  ok : A → Accepted A
  err : AcceptError → Accepted A

infixl 5 ◌>>=◌
abbrev pub ◌>>=◌ {ℓ κ} : {A : Type ℓ} {B : Type κ} → Accepted A → (A → Accepted B) → Accepted B
ok a >>= f = f a
err e >>= f = err e

abbrev pub or_fail {ℓ} : {A : Type ℓ} → AcceptError → Option A → Accepted A
or_fail e none = err e
or_fail e (some a) = ok a

-- The request that may open a session: its id and its raw parameters.
abbrev authorize_request : Request → Accepted (ℕ × Bytes)
authorize_request req = elim req.params [
  | none ↦ err unauthorized
  | some params ↦ elim req.id [
    | none ↦ err unauthorized
    | some id ↦ if text_beq req.method method_authorize then ok (id, params) else err unauthorized
  ]
]

abbrev named : Text → Accepted Text
named [] = err unauthorized
named (c ∷ cs) = ok (c ∷ cs)

abbrev binary : Frame → Accepted Bytes
binary f = if f.op_code == op_binary then ok f.payload else err invalid_opcode

-- `LoadUserState` into a session.
abbrev pub restore_user : Option SavedJob → Session → Session
restore_user none s = s
restore_user (some u) s = record s {
  latest_job_id = u.job_id;
  latest_server_nonce = u.nonce;
  last_submit_at = u.at;
}

module _ {S : Type 0} (api : StateStore S) (codec : Codec) where
  -- Lines 24 to 53: what the connection and the generator of random bytes give decides all.
  unfoldable pub handshake : Option Frame → Option Bytes → Accepted (ℕ × Text × Text)
  handshake read random = do
    frame ← or_fail read_failed read
    payload ← binary frame
    req ← or_fail bad_message (codec.decode_request payload)
    (id, params) ← authorize_request req
    p ← or_fail bad_message (codec.decode_authorize (some params))
    username ← named p.username
    buf ← or_fail random_failed random
    ok (id, username, hex_encode buf)

  -- Lines 54 to 67.
  unfoldable pub open_session : Text → Text → World S → World S
  open_session channel_id username w =
      let c = register_session channel_id username w.coord in
      elim w.state [
        | none ↦ record w { coord = c }
        | some s ↦ elim (lookup channel_id c.sessions) [
          | none ↦ record w { coord = c }
          | some sess ↦ record w {
            coord = record c {
              sessions =
                  insert channel_id (restore_user (api.load_user_state username s) sess) c.sessions;
            };
          }
        ]
      ]

  abbrev pub admit : Accepted (ℕ × Text × Text) → World S → Accepted Text × World S
  admit (err e) w = (err e, w)
  admit (ok (id, username, channel_id)) w = (
    ok channel_id,
    emit
        (write_frame op_binary
          (codec.encode_response (record { id = id; result = true; error = none })))
        (open_session channel_id username w),
  )

  unfoldable pub accept : Option Frame → Option Bytes → World S → Accepted Text × World S
  accept read random w = admit (handshake read random) w
