-- ===== src/System/Debut.antt =====
-- app/client/client.go against app/server: a new connection, from its first frame to the first
-- accepted submission.
use kupool.Common.{
  Option-cases, All, Text, text_beq_iff, nat_key, text_key, contains, lookup, Bytes, IsByte,
  hex_encode, IsAscii, Time, ◌≡◌, refl, ◌∙◌, ◌≢◌, inl, inr, true, Option, none, some, [], ◌∷◌,
  arith,
}
use kupool.Protocol.{Codec}
use kupool.Protocol.Laws.{IsFaithful}
use kupool.State.{StateStore, write_frame, World}
use kupool.Coordinator.{Draw}
use kupool.Submit.{used_for}
use kupool.Submit.Decision.{IsRested}
use kupool.Frame.{op_binary}
use kupool.Client.{Turn, new_client, authorize_frame}
use kupool.Acceptor.Admission.{IsHandshake, first_session, accept_opens}
use kupool.Acceptor.{ok, accept}
use kupool.System.Play.{Plays, run-receive}

module _ (codec : Codec) (laws : IsFaithful codec) (sha256 : Bytes → Bytes) {S : Type 0}
    (api : StateStore S) where
  -- The session of a new channel stands under the channel's name and has used no nonce.
  pub first_session-new :
      (state : Option S) (ch username : Text)
      → let s = first_session api codec state ch username in
        (s.channel_id ≡ ch) × (s.username ≡ username) × (s.used_nonces ≡ [])
  first_session-new none ch username = (refl, refl, refl)
  first_session-new (some x) ch username = elim (Option-cases (api.load_user_state username x)) [
    | inl e ↦ rw e (refl, refl, refl)
    | inr (u, e) ↦ rw e (refl, refl, refl)
  ]

  -- The first frame of a client of a user whose name is not empty opens a session.
  pub authorize_frame-IsHandshake :
      (username : Text)
      → IsAscii username
      → username ≢ []
      → IsHandshake api codec (some (authorize_frame codec sha256 username)) 1 username
  unfolding authorize_frame
  authorize_frame-IsHandshake username ascii named = record {
    payload = _;
    req = _;
    params = _;
    is_binary = refl;
    decodes = laws.authorize_request 1 (record { username = username }) (omega arith);
    is_authorize = refl;
    has_id = refl;
    has_params = refl;
    names = laws.authorize (record { username = username }) ascii;
    is_named = named;
  }

  -- A user with a name of ASCII characters connects. The acceptor answers its first frame and
  -- opens a session under the random name. Then a round of the coordinator's loop pushes a job to
  -- the new channel, the client submits at once, and the listener accepts: one event under the
  -- user's name, and success, which leaves the client as it is. This holds if the state store
  -- knows no acceptance of the user in the second before.
  pub accept-run-receive :
      (digests : (b : Bytes) → All IsByte (sha256 b)) (username : Text) (buf : Bytes) (d : Draw)
      (w : World S) (t t' : Turn) (since now : Time)
      → IsAscii username
      → username ≢ []
      → All IsByte d.buf
      → All IsByte t.buf
      → IsRested (first_session api codec w.state (hex_encode buf) username) now
      → let r = accept api codec (some (authorize_frame codec sha256 username)) (some buf) w in
        (r.0 ≡ ok (hex_encode buf))
        × (r.1.log
            ≡ write_frame op_binary
                (codec.encode_response (record { id = 1; result = true; error = none }))
              ∷ w.log)
        × Plays codec sha256 api d r.1
            (hex_encode buf)
            username
            (new_client username)
            t
            t'
            since
            now
  unfolding new_client used_for contains lookup
  accept-run-receive digests username buf d w t t' since now ascii named d_bytes t_bytes rested =
      let ch : Text = hex_encode buf in
      let shake = authorize_frame-IsHandshake username ascii named in
      let opened =
        accept_opens api codec (some (authorize_frame codec sha256 username)) 1 username buf w ch
          shake in
      let s = first_session api codec w.state ch username in
      let r = accept api codec (some (authorize_frame codec sha256 username)) (some buf) w in
      let (own, name, unused) = first_session-new w.state ch username in
      let here : lookup ch r.1.coord.sessions ≡ some s =
        opened.1.0 ∙ rw ((text_beq_iff ch ch).1 refl) refl in
      let plays =
        run-receive codec laws sha256 api digests d r.1 ch s (new_client username) t t' since now
          here own d_bytes t_bytes (omega arith) (omega arith) rested (ground (arith, unused)) in
      (opened.0, opened.2, rw name at plays)
