-- ===== src/Submit/Replay.antt =====
-- app/server/listener.go, handleSubmit: what a session remembers of the submissions it made.
use kupool.Common.{
  ◌==◌, if◌then◌else◌, Text, nat_key, text_key, contains, contains-cons_self, contains-cons, lookup,
  insert, lookup-insert, Bytes, Time, ℕ, ◌≡◌, sym, ◌∙◌, ◌≢◌, true, Option, none, some, List, [],
  ◌∷◌, arith,
}
use mathlib.Core.Bool.{false≢true}
use kupool.Protocol.{SubmitParams}
use kupool.State.{Session, Coordinator}
use kupool.Submit.{
  SubmitError, select_job, limit_rate, used_for, check_duplicate, record_nonce, check_result,
  check_submit, submit,
}
use kupool.Submit.Decision.{submit_iff}

-- One submission of a session: its parameters and the two readings of the clock.
pub record Attempt : Type 0 where
  pub params : SubmitParams
  pub since : Time
  pub now : Time

abbrev pub IsUsed : ℕ → Text → Session → Type 0
IsUsed job nonce s = contains nonce (used_for job s) ≡ true

used_for-insert :
    (j job : ℕ) (m : List Text) (s : Session)
    → used_for job (record s { used_nonces = insert j m s.used_nonces })
      ≡ (if j == job then m else used_for job s)
unfolding used_for
used_for-insert j job m s = ground (arith, lookup-insert j job m s.used_nonces)

used_for_missing :
    (j job : ℕ) (s : Session)
    → lookup j s.used_nonces ≡ none
    → (j == job) ≡ true
    → used_for job s ≡ []
unfolding used_for
used_for_missing j job s h e = ground arith

pub record_nonce-used_for :
    (p : SubmitParams) (now : Time) (s : Session) (job : ℕ)
    → used_for job (record_nonce p now s)
      ≡ (if p.job_id == job then p.client_nonce ∷ used_for job s else used_for job s)
unfolding used_for record_nonce
record_nonce-used_for p now s job =
    ground (arith, lookup-insert p.job_id job (p.client_nonce ∷ used_for p.job_id s) s.used_nonces)

-- What changes a session: a submission, with the coordinator as it is then, or a broadcast job.
pub data Happening : Type 0 where
  sent : Coordinator → Attempt → Happening
  told : ℕ → Text → Happening

told-IsUsed :
    (j : ℕ) (n : Text) (s : Session) (job : ℕ) (nonce : Text)
    → IsUsed job nonce s
    → IsUsed job nonce (record s { latest_job_id = j; latest_server_nonce = n })
unfolding used_for
told-IsUsed j n s job nonce h = h

module _ (sha256 : Bytes → Bytes) where
  abbrev pub attempt : Coordinator → Attempt → Session → Option SubmitError × Session
  attempt c a = submit sha256 c a.params a.since a.now

  select-used_for :
      (c : Coordinator) (p : SubmitParams) (since : Time) (s : Session) (job : ℕ)
      → used_for job (select_job c p since s).1 ≡ used_for job s
  unfolding select_job used_for
  select-used_for c p since s job = ground arith

  check_duplicate-used_for :
      (p : SubmitParams) (s : Session) (job : ℕ)
      → used_for job (check_duplicate p s).1 ≡ used_for job s
  unfolding check_duplicate
  check_duplicate-used_for p s job =
      ground (arith, used_for-insert p.job_id job [] s, used_for_missing p.job_id job s)

  pub check-used_for :
      (c : Coordinator) (a : Attempt) (s : Session) (job : ℕ)
      → used_for job (check_submit sha256 c a.params a.since a.now s).1 ≡ used_for job s
  unfolding check_submit limit_rate check_result
  check-used_for c a s job =
      let s' = (select_job c a.params a.since s).1 in
      ground
        (arith, select-used_for c a.params a.since s job, check_duplicate-used_for a.params s' job)

  -- What an attempt leaves in the memory of the session.
  pub attempt-used_for :
      (c : Coordinator) (a : Attempt) (s : Session) (job : ℕ)
      → used_for job (attempt c a s).1 ≡ elim (attempt c a s).0 [
        | some e ↦ used_for job s
        | none ↦
            if a.params.job_id == job
            then a.params.client_nonce ∷ used_for job s
            else used_for job s
      ]
  unfolding submit
  attempt-used_for c a s job = ground (
    arith,
    check-used_for c a s job,
    record_nonce-used_for a.params a.now (check_submit sha256 c a.params a.since a.now s).1 job,
  )

  -- Nothing that a session sends makes it forget a nonce.
  attempt-IsUsed :
      (c : Coordinator) (a : Attempt) (s : Session) (job : ℕ) (nonce : Text)
      → IsUsed job nonce s
      → IsUsed job nonce (attempt c a s).1
  attempt-IsUsed c a s job nonce h = ground (
    arith,
    attempt-used_for c a s job,
    contains-cons nonce a.params.client_nonce (used_for job s),
  )

  -- A session at work: its submissions, and the broadcasts that reach it.
  unfoldable pub attempts : List Happening → Session → Session
  attempts [] s = s
  attempts (sent c a ∷ l) s = attempts l (attempt c a s).1
  attempts (told job nonce ∷ l) s =
      attempts l (record s { latest_job_id = job; latest_server_nonce = nonce })

  attempts-IsUsed :
      (l : List Happening) (s : Session) (job : ℕ) (nonce : Text)
      → IsUsed job nonce s
      → IsUsed job nonce (attempts l s)
  unfolding attempts
  attempts-IsUsed [] s job nonce h = h
  attempts-IsUsed (sent c a ∷ l) s job nonce h =
      attempts-IsUsed l (attempt c a s).1 job nonce (attempt-IsUsed c a s job nonce h)
  attempts-IsUsed (told j n ∷ l) s job nonce h =
      attempts-IsUsed l (record s { latest_job_id = j; latest_server_nonce = n }) job nonce
        (told-IsUsed j n s job nonce h)

  accepted-IsUsed :
      (c : Coordinator) (a : Attempt) (s : Session)
      → (attempt c a s).0 ≡ none
      → IsUsed a.params.job_id a.params.client_nonce (attempt c a s).1
  accepted-IsUsed c a s h = ground (
    arith,
    attempt-used_for c a s a.params.job_id,
    contains-cons_self a.params.client_nonce (used_for a.params.job_id s),
  )

  -- Once a session's client nonce was accepted for a job, no later submission of it for that job
  -- is accepted in the session, whatever it sent and whatever jobs it was told
  -- of in between.
  pub attempts-replay :
      (c d : Coordinator) (a b : Attempt) (l : List Happening) (s : Session)
      → (attempt c a s).0 ≡ none
      → b.params.job_id ≡ a.params.job_id
      → b.params.client_nonce ≡ a.params.client_nonce
      → (attempt d b (attempts l (attempt c a s).1)).0 ≢ none
  attempts-replay c d a b l s first job nonce again =
      let (n, accepted) = (submit_iff sha256 d b.params b.since b.now _).0 again in
      let used =
        attempts-IsUsed l (attempt c a s).1 a.params.job_id a.params.client_nonce
          (accepted-IsUsed c a s first) in
      let fresh = accepted.is_fresh in false≢true (sym fresh ∙ rw (job, nonce) used)
