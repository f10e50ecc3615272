-- ===== src/System/Hasty.antt =====
-- app/client/client.go against app/server/listener.go: the submission that the client sends as soon
-- as it is told of a job does not wait for the second that the server asks for.
use kupool.Common.{
  All, Text, nat_key, text_key, lookup, Bytes, IsByte, codes, hex_encode, hex_encode-IsAscii, Time,
  second, time_sub-lt, ◌+◌, ◌<◌, ◌≡◌, refl, ◌∙◌, ◌≢◌, inl, inr, false, some, ◌∷◌, arith,
}
use kupool.Protocol.{Codec, JobParams, SubmitParams, method_submit}
use kupool.Protocol.Laws.{IsInt, IsFaithful, request}
use kupool.State.{Session, Coordinator, StateStore, push, World}
use kupool.Coordinator.{Draw, next_id, run}
use kupool.Coordinator.Broadcast.{run_round}
use kupool.Submit.{submit, check_submit, select_job, limit_rate, is_too_soon, too_frequent}
use kupool.Listener.{receive, handle_submit}
use kupool.Listener.Answers.{receive_answers}
use kupool.Listener.Effects.{handle_submit-log}
use kupool.Client.{Client, Turn, on_frame}
use kupool.Client.Honest.{work, binary, submission}
use kupool.System.Play.{holding, on_frame-job, on_job-sent, work-IsAscii}

-- An acceptance of the session is less than a second ago.
abbrev pub IsHasty : Session → Time → Type 0
IsHasty s now = (s.last_submit_at ≢ 0) × (now < s.last_submit_at + second)

submit_hasty :
    (sha256 : Bytes → Bytes) (c : Coordinator) (p : SubmitParams) (since now : Time) (s : Session)
    → p.job_id ≡ s.latest_job_id
    → IsHasty s now
    → (submit sha256 c p since now s).0 ≡ some too_frequent
unfolding submit check_submit select_job limit_rate is_too_soon
submit_hasty sha256 c p since now s latest hasty =
    ground (arith, latest, hasty.0, hasty.1, time_sub-lt now s.last_submit_at second (omega arith))

module _ (codec : Codec) (laws : IsFaithful codec) (sha256 : Bytes → Bytes) {S : Type 0}
    (api : StateStore S) where
  -- A registered session whose last acceptance is less than a second ago is told of a job by a
  -- round of the coordinator's loop. Its client reads the message and submits at once; the listener
  -- refuses the submission as too frequent, publishes nothing and saves nothing.
  pub run-receive_hasty :
      (digests : (b : Bytes) → All IsByte (sha256 b)) (d : Draw) (w : World S) (ch : Text)
      (s : Session) (c : Client) (t : Turn) (since now : Time)
      → lookup ch w.coord.sessions ≡ some s
      → All IsByte d.buf
      → All IsByte t.buf
      → IsInt c.next_id
      → IsHasty s now
      → let p : JobParams = record {
        job_id = next_id w.coord.job_id;
        server_nonce = hex_encode d.buf;
      } in
        let w' = run api codec d w in
        let sent = submission codec sha256 (holding codec sha256 p c) t in
        let w'' = receive api codec sha256 ch sent since now w' in
        ((on_frame codec sha256 (binary (codec.encode_broadcast p)) t c).sent
          ≡ binary sent ∷ c.sent)
        × (w''.log
            ≡ push ch (
                codec.encode_response (record {
                  id = c.next_id;
                  result = false;
                  error = some (codes "Submission too frequent");
                }))
              ∷ w'.log)
        × (w''.state ≡ w'.state)
  run-receive_hasty digests d w ch s c t since now known d_bytes t_bytes int hasty =
      let p : JobParams = record {
        job_id = next_id w.coord.job_id;
        server_nonce = hex_encode d.buf;
      } in
      let w' = run api codec d w in
      let s' : Session = record s {
        latest_job_id = p.job_id;
        latest_server_nonce = p.server_nonce;
      } in
      let job_int : IsInt p.job_id = omega arith in
      let here : lookup ch w'.coord.sessions ≡ some s' =
        (run_round api codec d w ch 0).1 ∙ rw known refl in
      let c' = holding codec sha256 p c in
      let q : SubmitParams = work codec sha256 c' t in
      let ascii = work-IsAscii codec laws sha256 digests c' t t_bytes in
      let got =
        receive_answers api codec sha256 ch (submission codec sha256 c' t) since now w'
          (request c.next_id method_submit (codec.encode_submit q)) c.next_id q
          (laws.submit_request c.next_id q int) refl refl (laws.submit q job_int ascii.0 ascii.1) in
      let done = handle_submit-log api codec sha256 ch q since now w' s' here in
      let refused : (handle_submit api codec sha256 ch q since now w').0 ≡ some too_frequent =
        done.0 ∙ submit_hasty sha256 w'.coord q since now s' refl hasty in
      let logged = rw refused at done.1 in
      let read = on_frame-job codec laws sha256 p t c job_int (hex_encode-IsAscii d.buf d_bytes) in
      (
        rw read (on_job-sent codec sha256 p t c),
        got.0 ∙ rw (refused, logged) refl,
        got.2 ∙ (elim done.2 [ inl e ↦ absurd (ground (arith, e, refused)) | inr e ↦ e ]),
      )
