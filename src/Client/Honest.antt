-- ===== src/Client/Honest.antt =====
-- app/client/client.go: what the client sends is what the server wants.
use kupool.Common.{
  text_beq_iff, nat_key, text_key, contains, Bytes, hex_encode, equal_fold_refl, Time, second,
  minute, time_sub-lt, ◌+◌, ◌≤◌, ◌<◌, ◌≡◌, ◌≢◌, ◌⊎◌, inl, false, none, [], arith,
}
use kupool.Frame.{Frame, op_binary}
use kupool.Protocol.Laws.{request}
use kupool.Protocol.{method_submit, Codec, SubmitParams}
use kupool.State.{Session, Coordinator}
use kupool.Submit.{expected_result, used_for, submit}
use kupool.Submit.Decision.{IsRested, submit_iff}
use kupool.Client.{Client, Turn, send_submit, on_second, on_minute}

abbrev pub binary : Bytes → Frame
binary payload = record { op_code = op_binary; payload = payload }

module _ (codec : Codec) (sha256 : Bytes → Bytes) where
  -- The submission of a client that holds a job.
  abbrev pub work : Client → Turn → SubmitParams
  work c t = record {
    job_id = c.job_id;
    client_nonce = hex_encode t.buf;
    result = expected_result sha256 c.server_nonce (hex_encode t.buf);
  }

  -- The payload of the client's submission.
  abbrev pub submission : Client → Turn → Bytes
  submission c t =
      codec.encode_request (request c.next_id method_submit (codec.encode_submit (work c t)))

  -- The submission that a client makes of the job that it holds is accepted by a session that was
  -- told of the same job and nonce last, if a second has passed since the session's last
  -- acceptance and the nonce that was drawn is new for the job.
  pub work_accepted :
      (co : Coordinator) (s : Session) (c : Client) (t : Turn) (since now : Time)
      → c.job_id ≡ s.latest_job_id
      → c.server_nonce ≡ s.latest_server_nonce
      → IsRested s now
      → contains (hex_encode t.buf) (used_for c.job_id s) ≡ false
      → (submit sha256 co (work c t) since now s).0 ≡ none
  work_accepted co s c t since now job nonce rested fresh =
      (submit_iff sha256 co (work c t) since now s).1 (
        c.server_nonce,
        record {
          is_open = inl (job, nonce);
          is_rested = rested;
          is_fresh = fresh;
          is_right = equal_fold_refl (expected_result sha256 c.server_nonce (hex_encode t.buf));
        },
      )

  -- A tick of the second timer sends one submission if the client holds a nonce and a second has
  -- passed since it sent the last one, or it sent none; a tick of the minute timer does if a
  -- minute has passed. Otherwise the tick changes nothing.
  pub tick_sends :
      (c : Client) (since : Time) (t : Turn)
      → (((on_second codec sha256 since t c ≡ c)
            × ((c.server_nonce ≡ []) ⊎ ((c.last_submit ≢ 0) × (since < c.last_submit + second))))
          ⊎ ((on_second codec sha256 since t c ≡ send_submit codec sha256 t c)
              × (c.server_nonce ≢ [])
              × ((c.last_submit ≡ 0) ⊎ (c.last_submit + second ≤ since))))
        × (((on_minute codec sha256 since t c ≡ c)
              × ((c.server_nonce ≡ []) ⊎ (since < c.last_submit + minute)))
            ⊎ ((on_minute codec sha256 since t c ≡ send_submit codec sha256 t c)
                × (c.server_nonce ≢ [])
                × (c.last_submit + minute ≤ since)))
  unfolding on_second on_minute
  tick_sends c since t =
      let bare = text_beq_iff c.server_nonce [] in
      let in_second = time_sub-lt since c.last_submit second (omega arith) in
      let in_minute = time_sub-lt since c.last_submit minute (omega arith) in
      (ground (arith, bare, in_second), ground (arith, bare, in_minute))
