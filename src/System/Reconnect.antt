-- ===== src/System/Reconnect.antt =====
-- app/server/listener.go and app/server/acceptor.go: a client that connects again.
use kupool.Common.{
  Text, text_beq_iff, nat_key, text_key, contains, lookup, Bytes, Time, second, ℕ, ◌+◌, ◌≤◌, ◌≡◌,
  refl, sym, ap, ◌∙◌, inl, inr, false, Option, none, some, [], arith,
}
use kupool.Protocol.{Codec, SubmitParams}
use kupool.State.{Session, Coordinator, World, with_coord}
use kupool.Submit.{
  SubmitError, submit, check_submit, select_job, limit_rate, check_duplicate, check_result,
  record_nonce, used_for,
}
use kupool.Submit.Decision.{submit_iff}
use kupool.Acceptor.Admission.{first_session, open_session-Opened}
use kupool.Listener.Effects.{handle_submit-log}
use kupool.Listener.{settle, handle_submit, announce, put_session, disconnect}
use kupool.Acceptor.{open_session}
use kupool.Memory.{MemoryStore, memory_state_store, save_user_state, save_used_nonce}
use kupool.Memory.States.{load-save_user_state}

-- The session that a client has when it connects again, from the state that was saved for it.
abbrev again : Text → Session → Session
again ch s = record {
  channel_id = ch;
  username = s.username;
  latest_job_id = s.latest_job_id;
  latest_server_nonce = s.latest_server_nonce;
  last_submit_at = s.last_submit_at;
  used_nonces = [];
}

module _ (codec : Codec) (sha256 : Bytes → Bytes) where
  submit-session :
      (c : Coordinator) (p : SubmitParams) (since now : Time) (s : Session)
      → p.job_id ≡ s.latest_job_id
      → (submit sha256 c p since now s).0 ≡ none
      → let s' = (submit sha256 c p since now s).1 in
        (s'.username ≡ s.username)
        × (s'.latest_job_id ≡ s.latest_job_id)
        × (s'.latest_server_nonce ≡ s.latest_server_nonce)
        × (s'.last_submit_at ≡ now)
  unfolding submit check_submit select_job limit_rate check_duplicate check_result record_nonce
  submit-session c p since now s latest h = ground arith

  fresh_again :
      (ch n : Text) (job : ℕ) (s : Session) → contains n (used_for job (again ch s)) ≡ false
  unfolding used_for contains lookup
  fresh_again ch n job s = refl

  -- A session that forgot its nonces takes the same submission again.
  submit-again :
      (c d : Coordinator) (p : SubmitParams) (since now since' now' : Time) (ch : Text)
      (s : Session)
      → p.job_id ≡ s.latest_job_id
      → (submit sha256 c p since now s).0 ≡ none
      → now + second ≤ now'
      → (submit sha256 d p since' now' (again ch (submit sha256 c p since now s).1)).0 ≡ none
  submit-again c d p since now since' now' ch s latest first later =
      let (n, ok) = (submit_iff sha256 c p since now s).0 first in
      let (name, job, nonce, at) = submit-session c p since now s latest first in
      let opened : n ≡ s.latest_server_nonce = ground (arith, ok.is_open, latest) in
      (submit_iff sha256 d p since' now' (again ch (submit sha256 c p since now s).1)).1 (
        n,
        record {
          is_open = inl (latest ∙ sym job, opened ∙ sym nonce);
          is_rested = inr (omega (arith, at, later));
          is_fresh = fresh_again ch p.client_nonce p.job_id (submit sha256 c p since now s).1;
          is_right = ok.is_right;
        },
      )

  settle_accepted :
      (ch : Text) (p : SubmitParams) (now : Time) (w : World MemoryStore)
      (r : Option SubmitError × Session)
      → r.0 ≡ none
      → settle memory_state_store codec sha256 ch p now w r ≡ (
        none,
        announce memory_state_store codec sha256 p now r.1 (with_coord (put_session ch r.1) w),
      )
  settle_accepted ch p now w (none, s) h = refl
  settle_accepted ch p now w (some x, s) h = cc

  -- What the memory store gives back to the user whose submission it saved.
  first_again :
      (ch user : Text) (p : SubmitParams) (s : Session) (m : MemoryStore)
      → s.username ≡ user
      → first_session memory_state_store codec
          (some
            (save_user_state s.username s.latest_job_id s.latest_server_nonce s.last_submit_at
              (save_used_nonce s.username p.job_id p.client_nonce m).1).1)
          ch
          user
        ≡ again ch s
  first_again ch user p s m e =
      rw
        (
          ← e,
          load-save_user_state s.username s.username s.latest_job_id s.latest_server_nonce
              s.last_submit_at (save_used_nonce s.username p.job_id p.client_nonce m).1,
          (text_beq_iff s.username s.username).1 refl,
        )
        refl

  -- Over the memory store: a submission for the session's latest job is accepted, the channel ends,
  -- and its user is admitted on another channel. Then the same submission is accepted again there,
  -- once a second has passed.
  pub handle_submit-open_session :
      (ch ch' : Text) (p : SubmitParams) (since now since' now' : Time) (w : World MemoryStore)
      (s : Session) (m : MemoryStore)
      → lookup ch w.coord.sessions ≡ some s
      → w.state ≡ some m
      → p.job_id ≡ s.latest_job_id
      → (handle_submit memory_state_store codec sha256 ch p since now w).0 ≡ none
      → now + second ≤ now'
      → let w' = (handle_submit memory_state_store codec sha256 ch p since now w).1 in
        (handle_submit memory_state_store codec sha256 ch' p since' now' (
          open_session memory_state_store codec ch' s.username
            (disconnect memory_state_store codec sha256 ch w'))).0
        ≡ none
  unfolding handle_submit disconnect announce
  handle_submit-open_session ch ch' p since now since' now' w s m known has_state latest first
        later =
      let done = handle_submit-log memory_state_store codec sha256 ch p since now w s known in
      let r = submit sha256 w.coord p since now s in
      let accepted : r.0 ≡ none = sym done.0 ∙ first in
      let (name, job, nonce, at) = submit-session w.coord p since now s latest accepted in
      let w' = (handle_submit memory_state_store codec sha256 ch p since now w).1 in
      let u = disconnect memory_state_store codec sha256 ch w' in
      let state_after : u.state
          ≡ some (
              (save_user_state r.1.username r.1.latest_job_id r.1.latest_server_nonce
                r.1.last_submit_at (save_used_nonce r.1.username p.job_id p.client_nonce m).1).1) =
        rw (known, handle_submit, settle_accepted ch p now w r accepted, has_state) refl in
      let opened = open_session-Opened memory_state_store codec u ch' s.username ch' in
      let here : lookup ch' (open_session memory_state_store codec ch' s.username u).coord.sessions
          ≡ some (again ch' r.1) =
        opened.0
        ∙ rw ((text_beq_iff ch' ch').1 refl, state_after)
            (ap some (first_again ch' s.username p r.1 m name)) in
      (handle_submit-log memory_state_store codec sha256 ch' p since' now' _ (again ch' r.1) here).0
      ∙ submit-again w.coord _ p since now since' now' ch' s latest accepted later
