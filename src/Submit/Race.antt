-- ===== src/Submit/Race.antt =====
-- app/server/listener.go, handleSubmit: the lock is released before the checks, and each payload
-- is received in a goroutine of its own, so another submission may run between them and line 83.
use kupool.Common.{
  Text, nat_key, text_key, contains, lookup-insert_self, Bytes, equal_fold, Time, ℕ, ◌≡◌, ◌↔◌, true,
  false, Option, none, [], arith,
}
use kupool.Protocol.{SubmitParams}
use kupool.State.{Session, Coordinator}
use kupool.Submit.Decision.{IsRested, is_too_soon-IsRested, IsRested-is_too_soon}
use kupool.Submit.{
  go_on, SubmitError, ◌>>◌, used_for, expected_result, select_job, limit_rate, is_too_soon,
  check_duplicate, check_result, check_submit,
}

module _ (sha256 : Bytes → Bytes) where
  -- The same submission received twice: if the first passes the checks, and the second is checked
  -- before the first is recorded, the second passes them too.
  pub check_submit_race :
      (c : Coordinator) (p : SubmitParams) (since now : Time) (s : Session)
      → (check_submit sha256 c p since now s).0 ≡ none
      → (check_submit sha256 c p since now (check_submit sha256 c p since now s).1).0 ≡ none
  unfolding check_submit select_job limit_rate is_too_soon check_duplicate check_result contains
  check_submit_race c p since now s h = ground (arith, lookup-insert_self p.job_id [] s.used_nonces)

  -- What a broadcast writes to a session.
  abbrev pub retell : ℕ → Text → Session → Session
  retell job nonce s = record s { latest_job_id = job; latest_server_nonce = nonce }

  abbrev interrupt : ℕ → Text → Option SubmitError × Session → Option SubmitError × Session
  interrupt job nonce (e, s) = (e, retell job nonce s)

  -- The checks, with a broadcast between the choice of the job and the rest: lines 56 to 82.
  unfoldable pub check_across :
      Coordinator → SubmitParams → Time → Time → ℕ → Text → Session → Option SubmitError × Session
  check_across c p since now job nonce s =
      go_on (interrupt job nonce (select_job c p since s))
        (limit_rate now >> check_duplicate p >> check_result sha256 p)

  -- A submission for the job that the session was told of last, with a broadcast between the choice
  -- of the job and the rest of the checks: it is accepted exactly if a second has passed since the
  -- last acceptance, the client nonce is new for the job of the submission, and the result is the
  -- digest under the nonce of the new job, not of its own.
  pub check_across_iff :
      (c : Coordinator) (p : SubmitParams) (since now : Time) (job : ℕ) (nonce : Text) (s : Session)
      → p.job_id ≡ s.latest_job_id
      → ((check_across c p since now job nonce s).0 ≡ none) ↔ (
          IsRested s now
          × (contains p.client_nonce (used_for p.job_id s) ≡ false)
          × (equal_fold (expected_result sha256 nonce p.client_nonce) p.result ≡ true))
  unfolding check_across select_job limit_rate is_too_soon check_duplicate check_result contains
      used_for
  check_across_iff c p since now job nonce s latest =
      let soon = is_too_soon-IsRested s now in
      let rested = IsRested-is_too_soon s now in
      (λ h. ground (arith, latest, soon, h), λ h. ground (arith, latest, rested h.0, h.1, h.2))
