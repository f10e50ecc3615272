-- ===== src/Acceptor/Admission.antt =====
-- app/server/acceptor.go: who gets a session, and what it starts with.
use kupool.Common.{
  if◌then◌else◌, Text, text_beq, text_beq_iff, nat_key, text_key, lookup, insert, lookup-insert,
  lookup-insert_self, Bytes, hex_encode, ℕ, ◌≡◌, refl, ap, ◌≢◌, true, Option, none, some, [], ◌∷◌,
  arith,
}
use kupool.Frame.{Frame, op_binary}
use kupool.Protocol.{Codec, Request, method_authorize}
use kupool.State.{Session, StateStore, write_frame, World}
use kupool.Coordinator.{register_session, new_session}
use kupool.Acceptor.{ok, handshake, open_session, accept, restore_user}

module _ {S : Type 0} (api : StateStore S) (codec : Codec) where
  -- The handshake of a user under a request id, over a generator that gave `buf`.
  pub record IsHandshake (read : Option Frame) (id : ℕ) (username : Text) : Type 0 where
    pub payload : Bytes
    pub req : Request
    pub params : Bytes
    pub is_binary : read ≡ some (record { op_code = op_binary; payload = payload })
    pub decodes : codec.decode_request payload ≡ some req
    pub is_authorize : req.method ≡ method_authorize
    pub has_id : req.id ≡ some id
    pub has_params : req.params ≡ some params
    pub names : codec.decode_authorize (some params) ≡ some (record { username = username })
    pub is_named : username ≢ []

  -- The handshake succeeds for every binary frame with an authorize request that has an id and
  -- names a user, and draws the channel's name from the 16 random bytes.
  pub handshake_complete :
      (read : Option Frame) (id : ℕ) (username : Text) (buf : Bytes)
      → IsHandshake read id username
      → handshake api codec read (some buf) ≡ ok (id, username, hex_encode buf)
  unfolding handshake
  handshake_complete read id [] buf h = absurd (h.is_named refl)
  handshake_complete read id (c ∷ cs) buf h =
      ground (arith, text_beq_iff h.req.method method_authorize)

  -- The session of a new channel: fresh but for what the state store knows of the user.
  abbrev pub first_session : Option S → Text → Text → Session
  first_session none ch username = new_session ch username
  first_session (some s) ch username =
      restore_user (api.load_user_state username s) (new_session ch username)

  abbrev pub Opened : World S → Text → Text → Text → World S → Type 0
  Opened w ch username k w' =
      (lookup k w'.coord.sessions ≡ (
        if text_beq ch k
        then some (first_session w.state ch username)
        else lookup k w.coord.sessions))
      × (w'.coord.job_id ≡ w.coord.job_id)
      × (w'.coord.history ≡ w.coord.history)
      × (w'.state ≡ w.state)

  pub open_session-Opened :
      (w : World S) (ch username k : Text)
      → Opened w ch username k (open_session api codec ch username w)
  unfolding open_session register_session
  open_session-Opened w ch username k =
      let fresh = new_session ch username in
      let first = first_session w.state ch username in
      let here = lookup-insert_self ch fresh w.coord.sessions in
      let once = lookup-insert ch k fresh w.coord.sessions in
      let twice = lookup-insert ch k first (insert ch fresh w.coord.sessions) in
      (
        ground (arith, here, once, twice),
        ground (arith, here),
        ground (arith, here),
        ground (arith, here),
      )

  pub open_session-log :
      (w : World S) (ch username : Text) → (open_session api codec ch username w).log ≡ w.log
  unfolding open_session register_session
  open_session-log w ch username = ground arith

  -- An authorized user gets a session under the channel's new name, fresh but for the job, the
  -- nonce and the last submission that the state store has of the user: in particular with no
  -- client nonce used. All other sessions stay, and one frame answers the request.
  pub accept_opens :
      (read : Option Frame) (id : ℕ) (username : Text) (buf : Bytes) (w : World S) (k : Text)
      → IsHandshake read id username
      → let r = accept api codec read (some buf) w in
        (r.0 ≡ ok (hex_encode buf))
        × Opened w (hex_encode buf) username k r.1
        × (r.1.log
            ≡ write_frame op_binary
                (codec.encode_response (record { id = id; result = true; error = none }))
              ∷ w.log)
  unfolding accept
  accept_opens read id username buf w k h =
      let opened = open_session-Opened w (hex_encode buf) username k in
      rw (handshake_complete read id username buf h) (
        refl,
        opened,
        ap
            (◌∷◌ (
              write_frame op_binary
                (codec.encode_response (record { id = id; result = true; error = none }))))
            (open_session-log w (hex_encode buf) username),
      )
