-- ===== src/Submit/Decision.antt =====
-- app/server/listener.go, handleSubmit: when a submission is accepted, and what it leaves behind.
use kupool.Common.{
  Text, nat_key, text_key, contains, lookup, Bytes, equal_fold, Time, second, time_sub-lt, ℕ, ◌+◌,
  ◌≤◌, ◌≡◌, ◌≢◌, ◌↔◌, ◌⊎◌, true, false, none, some, arith,
}
use kupool.Protocol.{SubmitParams}
use kupool.State.{Session, JobRecord, Coordinator}
use kupool.Submit.{
  ◌>>◌, is_expired, select_job, is_too_soon, limit_rate, used_for, check_duplicate, expected_result,
  check_result, check_submit, submit, record_nonce,
}

-- The job is open to the session, with the server nonce `n`: it is the job that the session was
-- told of last, or one of the history that has not expired.
abbrev pub IsOpen : Coordinator → Session → ℕ → Time → Text → Type 0
IsOpen c s job since n =
    ((job ≡ s.latest_job_id) × (n ≡ s.latest_server_nonce))
    ⊎ ((job ≢ s.latest_job_id)
        × ((rec : JobRecord) × (lookup job c.history ≡ some rec)
            × (is_expired c.expire_after rec since ≡ false)
            × (n ≡ rec.nonce)))

-- The session has not been accepted yet, or its last acceptance is a second ago.
abbrev pub IsRested : Session → Time → Type 0
IsRested s now = (s.last_submit_at ≡ 0) ⊎ (s.last_submit_at + second ≤ now)

pub is_too_soon-IsRested : (s : Session) (now : Time) → is_too_soon s now ≡ false → IsRested s now
unfolding is_too_soon
is_too_soon-IsRested s now h = ground (arith, time_sub-lt now s.last_submit_at second (omega arith))

pub IsRested-is_too_soon : (s : Session) (now : Time) → IsRested s now → is_too_soon s now ≡ false
unfolding is_too_soon
IsRested-is_too_soon s now h = ground (arith, time_sub-lt now s.last_submit_at second (omega arith))

module _ (sha256 : Bytes → Bytes) where
  pub record IsAcceptable (c : Coordinator) (p : SubmitParams) (since now : Time) (s : Session)
      (n : Text) : Type 0 where
    pub is_open : IsOpen c s p.job_id since n
    pub is_rested : IsRested s now
    pub is_fresh : contains p.client_nonce (used_for p.job_id s) ≡ false
    pub is_right : equal_fold (expected_result sha256 n p.client_nonce) p.result ≡ true

  -- The step behind the choice of the job.
  after_select :
      (c : Coordinator) (p : SubmitParams) (now : Time) (s : Session)
      → ((limit_rate now >> check_duplicate p >> check_result sha256 p) s).0 ≡ none
      → IsRested s now
        × (contains p.client_nonce (used_for p.job_id s) ≡ false)
        × (equal_fold (expected_result sha256 s.latest_server_nonce p.client_nonce) p.result ≡ true)
  unfolding limit_rate check_duplicate check_result used_for contains
  after_select c p now s h = ground (arith, is_too_soon-IsRested s now)

  selected :
      (c : Coordinator) (p : SubmitParams) (since now : Time) (s : Session)
      → (submit sha256 c p since now s).0 ≡ none
      → let s' = (select_job c p since s).1 in
        IsOpen c s p.job_id since s'.latest_server_nonce
        × (((limit_rate now >> check_duplicate p >> check_result sha256 p) s').0 ≡ none)
        × (s'.last_submit_at ≡ s.last_submit_at)
        × (used_for p.job_id s' ≡ used_for p.job_id s)
  unfolding submit check_submit select_job used_for
  selected c p since now s h = ground arith

  accepting :
      (c : Coordinator) (p : SubmitParams) (since now : Time) (s : Session) (n : Text)
      → IsAcceptable c p since now s n
      → (submit sha256 c p since now s).0 ≡ none
  unfolding submit check_submit select_job limit_rate check_duplicate check_result used_for contains
      is_too_soon
  accepting c p since now s n a = ground (arith, IsRested-is_too_soon s now a.is_rested)

  -- A submission is accepted exactly when it meets the specification for some server nonce: the
  -- job is open to the session under that nonce, a second has passed, the client nonce is new for
  -- the job, and the result is the digest of the two nonces up to the case of its letters.
  pub submit_iff :
      (c : Coordinator) (p : SubmitParams) (since now : Time) (s : Session)
      → ((submit sha256 c p since now s).0 ≡ none) ↔ ((n : Text) × IsAcceptable c p since now s n)
  submit_iff c p since now s = (sound, complete)
    where
      sound : (submit sha256 c p since now s).0 ≡ none → (n : Text) × IsAcceptable c p since now s n
      sound h =
          let (open_job, rest, last, used) = selected c p since now s h in
          let (rested, fresh, right) = after_select c p now (select_job c p since s).1 rest in
          (
            (select_job c p since s).1.latest_server_nonce,
            record {
              is_open = open_job;
              is_rested = rw last at rested;
              is_fresh = rw used at fresh;
              is_right = right;
            },
          )

      complete :
          ((n : Text) × IsAcceptable c p since now s n) → (submit sha256 c p since now s).0 ≡ none
      complete (n, a) = accepting c p since now s n a

  pub submit-username :
      (c : Coordinator) (p : SubmitParams) (since now : Time) (s : Session)
      → (submit sha256 c p since now s).1.username ≡ s.username
  unfolding submit check_submit select_job limit_rate check_duplicate check_result record_nonce
  submit-username c p since now s = ground arith
