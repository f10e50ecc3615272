-- ===== src/Submit/Stale.antt =====
-- app/server/listener.go, handleSubmit: submissions that are judged by another job's nonce.
use kupool.Common.{
  Text, nat_key, text_key, contains, lookup, Bytes, hex_encode, equal_fold, Time, ◌≡◌, refl, sym,
  ◌∙◌, ◌≢◌, inl, inr, true, false, none, some, [], arith,
}
use mathlib.Core.Bool.{false≢true}
use kupool.Protocol.{SubmitParams}
use kupool.State.{Session, JobRecord, Coordinator}
use kupool.Coordinator.{new_session}
use kupool.Submit.{
  select_job, limit_rate, used_for, check_duplicate, record_nonce, check_result, check_submit,
  submit, expected_result,
}
use kupool.Submit.Decision.{submit_iff}

module _ (sha256 : Bytes → Bytes) where
  old_nonce_stays :
      (c : Coordinator) (p : SubmitParams) (since now : Time) (s : Session) (rec : JobRecord)
      → p.job_id ≢ s.latest_job_id
      → lookup p.job_id c.history ≡ some rec
      → let s' = (submit sha256 c p since now s).1 in
        (s'.latest_server_nonce ≡ rec.nonce) × (s'.latest_job_id ≡ s.latest_job_id)
  unfolding submit check_submit select_job limit_rate check_duplicate check_result record_nonce
  old_nonce_stays c p since now s rec other known = (ground arith, ground arith)

  -- A submission for an older job of the history, accepted or not, leaves its nonce in the session.
  -- The session's next submission for its latest job is then refused unless its result is the
  -- digest of the older job's nonce, also if it is right for the latest job.
  pub submit_stale :
      (c d : Coordinator) (p q : SubmitParams) (since now since' now' : Time) (s : Session)
      (rec : JobRecord)
      → p.job_id ≢ s.latest_job_id
      → lookup p.job_id c.history ≡ some rec
      → q.job_id ≡ s.latest_job_id
      → equal_fold (expected_result sha256 rec.nonce q.client_nonce) q.result ≡ false
      → (submit sha256 d q since' now' (submit sha256 c p since now s).1).0 ≢ none
  submit_stale c d p q since now since' now' s rec other known latest wrong accepted =
      let (nonce, job) = old_nonce_stays c p since now s rec other known in
      let (n, a) = (submit_iff sha256 d q since' now' _).0 accepted in
      elim a.is_open [
        | inl (same, e) ↦ false≢true (sym wrong ∙ rw (e ∙ nonce) at a.is_right)
        | inr (differs, _) ↦ differs (latest ∙ sym job)
      ]

  -- A session that was told of no job yet accepts job 0 under the empty server nonce: the digest
  -- of the client nonce alone is enough.
  pub submit_unassigned :
      (c : Coordinator) (p : SubmitParams) (since now : Time) (channel_id username : Text)
      → p.job_id ≡ 0
      → equal_fold (hex_encode (sha256 p.client_nonce)) p.result ≡ true
      → (submit sha256 c p since now (new_session channel_id username)).0 ≡ none
  unfolding expected_result used_for lookup contains
  submit_unassigned c p since now channel_id username job right =
      (submit_iff sha256 c p since now (new_session channel_id username)).1 (
        [],
        record {
          is_open = inl (job, refl);
          is_rested = inl refl;
          is_fresh = refl;
          is_right = right;
        },
      )
