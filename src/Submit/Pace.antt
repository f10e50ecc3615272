-- ===== src/Submit/Pace.antt =====
-- app/server/listener.go, handleSubmit: the times of the accepted submissions of a session.
use kupool.Common.{Bytes, second, ◌+◌, ◌≤◌, ◌<◌, ◌≡◌, none, some, List, [], ◌∷◌, arith}
use kupool.State.{Session, Coordinator}
use kupool.Submit.{
  select_job, limit_rate, check_duplicate, record_nonce, check_result, check_submit, submit,
}
use kupool.Submit.Decision.{submit_iff}
use kupool.Submit.Replay.{Attempt, Happening, sent, told, attempt, attempts}

module _ (sha256 : Bytes → Bytes) where
  -- What an attempt leaves of the time of the last acceptance.
  pub attempt-last :
      (c : Coordinator) (a : Attempt) (s : Session)
      → (attempt sha256 c a s).1.last_submit_at
        ≡ elim (attempt sha256 c a s).0 [ some e ↦ s.last_submit_at | none ↦ a.now ]
  unfolding submit check_submit select_job limit_rate check_duplicate check_result record_nonce
  attempt-last c a s = ground arith

  attempt-second :
      (c : Coordinator) (a : Attempt) (s : Session)
      → (attempt sha256 c a s).0 ≡ none
      → 0 < s.last_submit_at
      → s.last_submit_at + second ≤ a.now
  attempt-second c a s h p =
      let (n, ok) = (submit_iff sha256 c a.params a.since a.now s).0 h in
      let rested = ok.is_rested in ground (arith, rested)

  attempts-last :
      (l : List Happening) (s : Session)
      → 0 < s.last_submit_at
      → s.last_submit_at ≤ (attempts sha256 l s).last_submit_at
  unfolding attempts
  attempts-last [] s p = omega arith
  attempts-last (sent c a ∷ l) s p =
      let s' = (attempt sha256 c a s).1 in
      ground (arith, attempt-last c a s, attempt-second c a s, attempts-last l s')
  attempts-last (told j n ∷ l) s p =
      attempts-last l (record s { latest_job_id = j; latest_server_nonce = n }) p

  -- Two accepted submissions of a session are a second apart or more by the times at which they
  -- are accepted, whatever it sent and was told in between, if the first was not accepted at the
  -- zero time. No order of the readings of the clock is assumed.
  pub attempts-pace :
      (c d : Coordinator) (a b : Attempt) (l : List Happening) (s : Session)
      → 0 < a.now
      → (attempt sha256 c a s).0 ≡ none
      → (attempt sha256 d b (attempts sha256 l (attempt sha256 c a s).1)).0 ≡ none
      → a.now + second ≤ b.now
  attempts-pace c d a b l s p first second_one =
      let s' = (attempt sha256 c a s).1 in
      ground
        (arith, attempt-last c a s, attempts-last l s', attempt-second d b (attempts sha256 l s'))
