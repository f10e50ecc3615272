-- ===== src/Submit/Goroutines.antt =====
-- app/server/listener.go, handleSubmit: the goroutines that handle the submissions of one session,
-- interleaved. Each checks (lines 56 to 82), then records (lines 83 and 84). These are the schedules
-- in which no other goroutine of the session runs inside one of the two blocks, though no lock keeps
-- it out. In such a schedule the map of nonces that a goroutine has looked up or made in its checks is
-- the session's map of the job when it records, since a map that is there is not replaced.
use kupool.Common.{Text, update, Bytes, ℕ, ◌≡◌, Option, none, some}
use kupool.State.{Session, Coordinator}
use kupool.Submit.{SubmitError, check_submit, record_nonce}
use kupool.Submit.Replay.{Attempt}

pub data Stage : Type 0 where
  waiting checked accepted : Stage
  refused : SubmitError → Stage

pub record Call : Type 0 where
  pub attempt : Attempt
  pub stage : Stage

-- The session, and the submissions that it has sent and will send, one goroutine each.
pub record Shared : Type 0 where
  pub session : Session
  pub calls : ℕ → Call

abbrev pub stage_of : Option SubmitError → Stage
stage_of none = checked
stage_of (some e) = refused e

unfoldable pub reach_stage : ℕ → Stage → Session → Shared → Shared
reach_stage i st s w = record {
  session = s;
  calls = update i (record { attempt = (w.calls i).attempt; stage = st }) w.calls;
}

-- Lines 83 and 84, in one piece.
unfoldable pub record_call : ℕ → Shared → Shared
record_call i w =
    let a = (w.calls i).attempt in reach_stage i accepted (record_nonce a.params a.now w.session) w

-- What a broadcast writes to the session.
unfoldable pub told_call : ℕ → Text → Shared → Shared
told_call job nonce w = record w {
  session = record w.session { latest_job_id = job; latest_server_nonce = nonce };
}

module _ (sha256 : Bytes → Bytes) where
  -- Lines 56 to 82, in one piece, with the coordinator as it is then.
  unfoldable pub check_call : Coordinator → ℕ → Shared → Shared
  check_call c i w =
      let a = (w.calls i).attempt in
      let r = check_submit sha256 c a.params a.since a.now w.session in
      reach_stage i (stage_of r.0) r.1 w

  -- A block of a goroutine that the scheduler picks and does not interrupt, or a broadcast that
  -- reaches the session.
  pub data Moves (w : Shared) : Shared → Type 0 where
    checks : (c : Coordinator) (i : ℕ) → (w.calls i).stage ≡ waiting → Moves w (check_call c i w)
    records : (i : ℕ) → (w.calls i).stage ≡ checked → Moves w (record_call i w)
    tells : (job : ℕ) (nonce : Text) → Moves w (told_call job nonce w)

  pub data Reach (w : Shared) : Shared → Type 0 where
    here : Reach w w
    next : {u v : Shared} → Reach w u → Moves u v → Reach w v
