-- ===== src/Submit.antt =====
-- app/server/listener.go, handleSubmit: what a submission does to the session that sends it. The
-- steps stand in the order of the source, and a change to the session outlives a later error.
pub mod Decision
pub mod Replay
pub mod Stale
pub mod Pace
pub mod Race
pub mod Goroutines
pub mod Overlap
use kupool.Common.{
  ◌==◌, if◌then◌else◌, Text, nat_key, text_key, contains, lookup, insert, Bytes, codes, hex_encode,
  equal_fold, pos, Time, Duration, second, time_sub, ltb_duration, ℕ, Bool, not, ◌&&◌, Option, none,
  some, List, [], ◌∷◌, ◌++◌,
}
use kupool.Protocol.{SubmitParams}
use kupool.State.{Session, JobRecord, Coordinator}

pub data SubmitError : Type 0 where
  task_missing task_expired too_frequent duplicate invalid_result : SubmitError

abbrev pub message : SubmitError → Text
message task_missing = codes "Task does not exist"
message task_expired = codes "Task expired"
message too_frequent = codes "Submission too frequent"
message duplicate = codes "Duplicate submission"
message invalid_result = codes "Invalid result"

-- A step works on the session and may end the handler with an error.
abbrev pub Step : Type 0
Step = Session → Option SubmitError × Session

abbrev pub go_on : Option SubmitError × Session → Step → Option SubmitError × Session
go_on (none, s) k = k s
go_on (some e, s) k = (some e, s)

infixl 5 ◌>>◌
abbrev pub ◌>>◌ : Step → Step → Step
◌>>◌ m k s = go_on (m s) k

-- Lines 59 to 61: `expireAfter > 0 && time.Since(rec.CreatedAt) > expireAfter`.
unfoldable pub is_expired : Duration → JobRecord → Time → Bool
is_expired expire_after rec since =
    ltb_duration (pos 0) expire_after && ltb_duration expire_after (time_sub since rec.created_at)

-- Lines 56 to 65.
unfoldable pub select_job : Coordinator → SubmitParams → Time → Step
select_job c p since s =
    if p.job_id == s.latest_job_id then (none, s) else elim (lookup p.job_id c.history) [
      | none ↦ (some task_missing, s)
      | some rec ↦
          let s' = record s { latest_server_nonce = rec.nonce } in
          if is_expired c.expire_after rec since then (some task_expired, s') else (none, s')
    ]

-- Line 67.
unfoldable pub is_too_soon : Session → Time → Bool
is_too_soon s now =
    not (s.last_submit_at == 0) && ltb_duration (time_sub now s.last_submit_at) (pos second)

unfoldable pub limit_rate : Time → Step
limit_rate now s = if is_too_soon s now then (some too_frequent, s) else (none, s)

-- `m := s.UsedNonces[jobID]`, empty where there is none.
unfoldable pub used_for : ℕ → Session → List Text
used_for job s = elim (lookup job s.used_nonces) [ none ↦ [] | some m ↦ m ]

-- Lines 70 to 77.
unfoldable pub check_duplicate : SubmitParams → Step
check_duplicate p s = elim (lookup p.job_id s.used_nonces) [
  | none ↦ (none, record s { used_nonces = insert p.job_id [] s.used_nonces })
  | some m ↦ if contains p.client_nonce m then (some duplicate, s) else (none, s)
]

-- Lines 83 and 84.
unfoldable pub record_nonce : SubmitParams → Time → Session → Session
record_nonce p now s = record s {
  used_nonces = insert p.job_id (p.client_nonce ∷ used_for p.job_id s) s.used_nonces;
  last_submit_at = now;
}

-- The digest is crypto/sha256 in the program; the proofs hold for every function of the bytes.
module _ (sha256 : Bytes → Bytes) where
  unfoldable pub expected_result : Text → Text → Text
  expected_result server_nonce client_nonce = hex_encode (sha256 (server_nonce ++ client_nonce))

  -- Lines 78 to 82.
  unfoldable pub check_result : SubmitParams → Step
  check_result p s =
      if equal_fold (expected_result s.latest_server_nonce p.client_nonce) p.result
      then (none, s)
      else (some invalid_result, s)

  -- Lines 56 to 82: every check, with nothing recorded yet. `since` and `now` are the two
  -- readings of the clock.
  unfoldable pub check_submit : Coordinator → SubmitParams → Time → Time → Step
  check_submit c p since now =
      select_job c p since >> limit_rate now >> check_duplicate p >> check_result p

  -- Lines 56 to 84.
  unfoldable pub submit : Coordinator → SubmitParams → Time → Time → Step
  submit c p since now = check_submit c p since now >> (λ s. (none, record_nonce p now s))
