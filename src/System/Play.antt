-- ===== src/System/Play.antt =====
-- app/client/client.go against app/server: a job from the coordinator to the client, and the
-- client's submission of it back to the listener, through the messages of protocol/message.go.
use kupool.Common.{
  Bool-cases, All, Text, text_beq, nat_key, text_key, contains, Map, lookup, Bytes, IsByte,
  hex_encode, IsAscii, hex_encode-IsAscii, Time, local, ℕ, ◌<◌, ◌≡◌, refl, sym, ap, ◌∙◌, inl, inr,
  true, false, none, some, [], ◌∷◌, arith,
}
use mathlib.Core.List.{Mem, mem-cons_self, mem-append_left, mem-append_right, mem-cast}
use kupool.Protocol.{Codec, JobParams, SubmitParams, method_submit}
use kupool.Protocol.Laws.{IsInt, IsFaithful, request}
use kupool.State.{Session, StateStore, push, publish, World}
use kupool.Coordinator.{Draw, next_id, run}
use kupool.Coordinator.Broadcast.{pushes, run_round}
use kupool.Submit.{used_for, expected_result}
use kupool.Submit.Decision.{IsRested, submit-username}
use kupool.Listener.{receive, handle_submit}
use kupool.Listener.Answers.{receive_answers}
use kupool.Listener.Effects.{handle_submit-log}
use kupool.Client.{Client, Turn, send_submit, on_job, on_frame}
use kupool.Client.Honest.{binary, submission, work, work_accepted}

-- The broadcast of a job reaches the channel of every session.
Mem-pushes :
    (bytes : Bytes) (ch : Text) (s : Session) (m : Map Text Session)
    → lookup ch m ≡ some s
    → s.channel_id ≡ ch
    → Mem (push ch bytes) (pushes bytes m)
unfolding lookup
Mem-pushes bytes ch s [] known own = absurd (ground (arith, known))
Mem-pushes bytes ch s ((k, x) ∷ m) known own = elim (Bool-cases (text_beq k ch)) [
  | inl e ↦
      let same : s ≡ x = ground (arith, e, known) in
      mem-append_right (pushes bytes m) (
        mem-cast (ap (λ i. push i bytes) (sym own ∙ ap (λ (y : Session). y.channel_id) same))
          mem-cons_self)
  | inr e ↦
      mem-append_left (push x.channel_id bytes ∷ [])
        (Mem-pushes bytes ch s m (ground (arith, e, known)) own)
]

module _ (codec : Codec) (sha256 : Bytes → Bytes) where
  -- The client as it holds a job that it was told of.
  abbrev pub holding : JobParams → Client → Client
  holding p c = record c { job_id = p.job_id; server_nonce = p.server_nonce }

  pub on_job-sent :
      (p : JobParams) (t : Turn) (c : Client)
      → (on_job codec sha256 p t c).sent ≡ binary (submission codec sha256 (holding p c) t) ∷ c.sent
  unfolding on_job send_submit expected_result
  on_job-sent p t c = refl

  module _ {S : Type 0} (api : StateStore S) where
    -- What a client and the listener do with one round of the coordinator's loop: the job that
    -- is pushed, the frame that the client sends, and what the listener does with it.
    abbrev pub Plays : Draw → World S → Text → Text → Client → Turn → Turn → Time → Time → Type 0
    Plays d w ch username c t t' since now =
        let p : JobParams = record {
          job_id = next_id w.coord.job_id;
          server_nonce = hex_encode d.buf;
        } in
        let w' = run api codec d w in
        let c' = on_frame codec sha256 (binary (codec.encode_broadcast p)) t c in
        let answer =
          codec.encode_response (record { id = c.next_id; result = true; error = none }) in
        Mem (push ch (codec.encode_broadcast p)) w'.log
        × (c'.sent ≡ binary (submission codec sha256 (holding p c) t) ∷ c.sent)
        × ((receive api codec sha256 ch (submission codec sha256 (holding p c) t) since now w').log
            ≡ push ch answer ∷ publish (record { username = username; time = local now }) ∷ w'.log)
        × (on_frame codec sha256 (binary answer) t' c' ≡ c')

module _ (codec : Codec) (laws : IsFaithful codec) (sha256 : Bytes → Bytes) where
  pub on_frame-job :
      (p : JobParams) (t : Turn) (c : Client)
      → IsInt p.job_id
      → IsAscii p.server_nonce
      → on_frame codec sha256 (binary (codec.encode_broadcast p)) t c ≡ on_job codec sha256 p t c
  unfolding on_frame text_beq
  on_frame-job p t c int ascii =
      rw (laws.broadcast_response p, laws.broadcast_request p, laws.job p int ascii) refl

  on_frame-success :
      (id : ℕ) (t : Turn) (c : Client)
      → IsInt id
      → 0 < id
      → on_frame codec sha256
          (binary (codec.encode_response (record { id = id; result = true; error = none })))
          t
          c
        ≡ c
  unfolding on_frame
  on_frame-success id t c int known = rw (laws.success_response id int) (ground arith)

  pub work-IsAscii :
      (digests : (b : Bytes) → All IsByte (sha256 b)) (c : Client) (t : Turn)
      → All IsByte t.buf
      → IsAscii (work codec sha256 c t).client_nonce × IsAscii (work codec sha256 c t).result
  unfolding expected_result
  work-IsAscii digests c t bytes =
      (hex_encode-IsAscii t.buf bytes, hex_encode-IsAscii _ (digests _))

  module _ {S : Type 0} (api : StateStore S) where
    -- The submission of a client, as the listener receives it.
    pub receive-submission :
        (digests : (b : Bytes) → All IsByte (sha256 b)) (ch : Text) (s : Session) (c : Client)
        (t : Turn) (since now : Time) (w : World S)
        → lookup ch w.coord.sessions ≡ some s
        → c.job_id ≡ s.latest_job_id
        → c.server_nonce ≡ s.latest_server_nonce
        → IsInt c.next_id
        → IsInt c.job_id
        → All IsByte t.buf
        → IsRested s now
        → contains (hex_encode t.buf) (used_for c.job_id s) ≡ false
        → (receive api codec sha256 ch (submission codec sha256 c t) since now w).log
          ≡ push ch (codec.encode_response (record { id = c.next_id; result = true; error = none }))
            ∷ publish (record { username = s.username; time = local now })
            ∷ w.log
    receive-submission digests ch s c t since now w known job nonce id_int job_int bytes rested
          fresh =
        let p : SubmitParams = work codec sha256 c t in
        let ascii = work-IsAscii digests c t bytes in
        let got =
          receive_answers api codec sha256 ch (submission codec sha256 c t) since now w
            (request c.next_id method_submit (codec.encode_submit p)) c.next_id p
            (laws.submit_request c.next_id p id_int) refl refl
            (laws.submit p job_int ascii.0 ascii.1) in
        let done = handle_submit-log api codec sha256 ch p since now w s known in
        let accepted = work_accepted codec sha256 w.coord s c t since now job nonce rested fresh in
        let passed : (handle_submit api codec sha256 ch p since now w).0 ≡ none =
          done.0 ∙ accepted in
        let logged = rw passed at done.1 in
        let named = submit-username sha256 w.coord p since now s in
        got.0 ∙ rw (passed, logged, named) refl

    -- A round of the coordinator's loop pushes a job to every registered session under its own
    -- channel; a client that reads it sends one submission at once; and the listener that receives
    -- it accepts it: it publishes one event under the user's name and answers with success, which
    -- leaves the client as it is. This holds if a second has passed since the session's last
    -- acceptance, and the nonce that the client draws is new for the job.
    pub run-receive :
        (digests : (b : Bytes) → All IsByte (sha256 b)) (d : Draw) (w : World S) (ch : Text)
        (s : Session) (c : Client) (t t' : Turn) (since now : Time)
        → lookup ch w.coord.sessions ≡ some s
        → s.channel_id ≡ ch
        → All IsByte d.buf
        → All IsByte t.buf
        → 0 < c.next_id
        → IsInt c.next_id
        → IsRested s now
        → contains (hex_encode t.buf) (used_for (next_id w.coord.job_id) s) ≡ false
        → Plays codec sha256 api d w ch s.username c t t' since now
    unfolding used_for
    run-receive digests d w ch s c t t' since now known own d_bytes t_bytes positive int rested
          fresh =
        let p : JobParams = record {
          job_id = next_id w.coord.job_id;
          server_nonce = hex_encode d.buf;
        } in
        let msg = codec.encode_broadcast p in
        let s' : Session = record s {
          latest_job_id = p.job_id;
          latest_server_nonce = p.server_nonce;
        } in
        let job_int : IsInt p.job_id = omega arith in
        let told = run_round api codec d w ch 0 in
        let here : lookup ch (run api codec d w).coord.sessions ≡ some s' =
          told.1 ∙ rw known refl in
        let read = on_frame-job p t c job_int (hex_encode-IsAscii d.buf d_bytes) in
        let received =
          receive-submission digests ch s' (holding codec sha256 p c) t since now
            (run api codec d w) here refl refl int job_int t_bytes rested fresh in
        (
          rw told.3 (mem-append_left w.log (Mem-pushes msg ch s w.coord.sessions known own)),
          rw read (on_job-sent codec sha256 p t c),
          received,
          on_frame-success c.next_id t' _ int positive,
        )
