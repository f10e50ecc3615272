-- ===== src/System/Mining.antt =====
-- app/client/client.go against app/server over many rounds of the coordinator's loop.
use kupool.Common.{
  All, Text, nat_key, text_key, contains, lookup, lookup-insert_self, Bytes, IsByte, hex_encode,
  Time, local, ℕ, ◌+◌, ◌^◌, ◌<◌, ◌≡◌, refl, sym, ap, ◌∙◌, false, Option, none, some, List, [], ◌∷◌,
  ◌++◌, arith,
}
use mathlib.Core.Path.{subst}
use kupool.Frame.{Frame}
use kupool.Protocol.{Codec, JobParams, SubmitParams, method_submit}
use kupool.Protocol.Laws.{IsInt, IsFaithful, request}
use kupool.State.{Session, Coordinator, StateStore, World}
use kupool.Coordinator.{Draw, next_id, run}
use kupool.Coordinator.Broadcast.{run_round}
use kupool.Submit.{SubmitError, submit, used_for}
use kupool.Submit.Decision.{IsRested, submit-username}
use kupool.Submit.Replay.{Attempt, attempt-used_for}
use kupool.Submit.Pace.{attempt-last}
use kupool.Listener.{receive, handle_submit, settle, put_session, announce}
use kupool.Listener.Answers.{receive_answers}
use kupool.Client.{Client, Turn, on_frame}
use kupool.Client.Honest.{work, work_accepted, binary, submission}
use kupool.System.Invariant.{submit-channel_id}
use kupool.System.Between.{handle_submit-Same}
use kupool.System.Pipeline.{published}
use kupool.System.Play.{work-IsAscii, receive-submission}

-- What a round draws: the job, the client's nonce, and the times at which the listener reads the
-- clock.
pub record Round : Type 0 where
  pub draw : Draw
  pub turn : Turn
  pub since : Time
  pub now : Time

-- The server and one client of it.
pub record Mine (S : Type 0) : Type 0 where
  pub world : World S
  pub client : Client

abbrev pub last_sent : List Frame → Bytes
last_sent [] = []
last_sent (f ∷ fs) = f.payload

module _ (codec : Codec) (sha256 : Bytes → Bytes) {S : Type 0} (api : StateStore S) where
  -- A round: the client reads the broadcast of the job, and the listener its next frame.
  unfoldable pub play : Text → Round → Mine S → Mine S
  play ch r m =
      let w = run api codec r.draw m.world in
      let msg : JobParams = record {
        job_id = w.coord.job_id;
        server_nonce = w.coord.server_nonce;
      } in
      let c = on_frame codec sha256 (binary (codec.encode_broadcast msg)) r.turn m.client in
      record { world = receive api codec sha256 ch (last_sent c.sent) r.since r.now w; client = c }

  unfoldable pub play_all : Text → List Round → Mine S → Mine S
  play_all ch [] m = m
  play_all ch (r ∷ rs) m = play_all ch rs (play ch r m)

  -- A session that the next round can be played with: it stands under its channel, belongs to the
  -- user, and has used no nonce for a job to come.
  pub record IsReady (ch user : Text) (c : Coordinator) (s : Session) : Type 0 where
    pub known : lookup ch c.sessions ≡ some s
    pub own : s.channel_id ≡ ch
    pub name : s.username ≡ user
    pub unused : (j : ℕ) → c.job_id < j → used_for j s ≡ []

  -- The session behind a submission.
  settle-session :
      (ch : Text) (p : SubmitParams) (now : Time) (w : World S) (r : Option SubmitError × Session)
      → lookup ch (settle api codec sha256 ch p now w r).1.coord.sessions ≡ some r.1
  unfolding put_session announce
  settle-session ch p now w (none, s) = lookup-insert_self ch s w.coord.sessions
  settle-session ch p now w (some e, s) = lookup-insert_self ch s w.coord.sessions

  handle_submit-session :
      (ch : Text) (p : SubmitParams) (since now : Time) (w : World S) (s : Session)
      → lookup ch w.coord.sessions ≡ some s
      → lookup ch (handle_submit api codec sha256 ch p since now w).1.coord.sessions
        ≡ some (submit sha256 w.coord p since now s).1
  unfolding handle_submit
  handle_submit-session ch p since now w s known =
      rw (known, handle_submit) (settle-session ch p now w (submit sha256 w.coord p since now s))

  -- An accepted submission for a job leaves the session ready for the jobs behind it.
  submitted-IsReady :
      (ch user : Text) (p : SubmitParams) (since now : Time) (w : World S) (s : Session)
      → IsReady ch user w.coord s
      → p.job_id ≡ w.coord.job_id
      → (submit sha256 w.coord p since now s).0 ≡ none
      → let s' = (submit sha256 w.coord p since now s).1 in
        IsReady ch user (handle_submit api codec sha256 ch p since now w).1.coord s'
        × (s'.last_submit_at ≡ now)
  submitted-IsReady ch user p since now w s ready job accepted =
      let a : Attempt = record { params = p; since = since; now = now } in
      let same = handle_submit-Same api codec sha256 ch p since now w in
      let last = attempt-last sha256 w.coord a s in
      (
        record {
          known = handle_submit-session ch p since now w s ready.known;
          own = submit-channel_id api codec sha256 w.coord p since now s ∙ ready.own;
          name = submit-username sha256 w.coord p since now s ∙ ready.name;
          unused = λ j h.
              let before = ready.unused j (omega (arith, same.0, h)) in
              ground
                (arith, attempt-used_for sha256 w.coord a s j, accepted, same.0, job, h, before);
        },
        ground (arith, last, accepted),
      )

  -- The job of the next round.
  abbrev pub next_job : Round → Mine S → JobParams
  next_job r m = record {
    job_id = next_id m.world.coord.job_id;
    server_nonce = hex_encode r.draw.buf;
  }

  abbrev pub told_of : JobParams → Session → Session
  told_of p s = record s { latest_job_id = p.job_id; latest_server_nonce = p.server_nonce }

  pub run-IsReady :
      (ch user : Text) (r : Round) (m : Mine S) (s : Session)
      → IsReady ch user m.world.coord s
      → m.world.coord.job_id + 1 < 2 ^ 64
      → IsReady ch user (run api codec r.draw m.world).coord (told_of (next_job r m) s)
  unfolding used_for
  run-IsReady ch user r m s ready room =
      let round = run_round api codec r.draw m.world ch 0 in
      record {
        known = round.1 ∙ rw ready.known refl;
        own = ready.own;
        name = ready.name;
        unused = λ j h. ready.unused j (omega (arith, round.0, h, room));
      }

  -- What the listener does with the submission of a client that holds the session's job.
  pub received-IsReady :
      (laws : IsFaithful codec) (digests : (b : Bytes) → All IsByte (sha256 b)) (ch user : Text)
      (c : Client) (t : Turn) (since now : Time) (w : World S) (s : Session)
      → IsReady ch user w.coord s
      → c.job_id ≡ s.latest_job_id
      → c.server_nonce ≡ s.latest_server_nonce
      → c.job_id ≡ w.coord.job_id
      → used_for c.job_id s ≡ []
      → IsInt c.next_id
      → IsInt c.job_id
      → All IsByte t.buf
      → IsRested s now
      → let w' = receive api codec sha256 ch (submission codec sha256 c t) since now w in
        ((s' : Session) × IsReady ch user w'.coord s' × (s'.last_submit_at ≡ now))
        × (w'.coord.job_id ≡ w.coord.job_id)
        × (published w'.log ≡ published w.log ++ record { username = user; time = local now } ∷ [])
  unfolding contains
  received-IsReady laws digests ch user c t since now w s ready job nonce current fresh id_int
        job_int bytes rested =
      let p : SubmitParams = work codec sha256 c t in
      let ascii = work-IsAscii codec laws sha256 digests c t bytes in
      let new : contains (hex_encode t.buf) (used_for c.job_id s) ≡ false = rw fresh refl in
      let got =
        receive_answers api codec sha256 ch (submission codec sha256 c t) since now w
          (request c.next_id method_submit (codec.encode_submit p)) c.next_id p
          (laws.submit_request c.next_id p id_int) refl refl
          (laws.submit p job_int ascii.0 ascii.1) in
      let logged =
        receive-submission codec laws sha256 api digests ch s c t since now w ready.known job nonce
          id_int job_int bytes rested new in
      let accepted = work_accepted codec sha256 w.coord s c t since now job nonce rested new in
      let left = submitted-IsReady ch user p since now w s ready current accepted in
      let same = handle_submit-Same api codec sha256 ch p since now w in
      (
        (
          (submit sha256 w.coord p since now s).1,
          subst (λ d. IsReady ch user d (submit sha256 w.coord p since now s).1) (sym got.1) left.0,
          left.1,
        ),
        ap (λ (d : Coordinator). d.job_id) got.1 ∙ same.0,
        ap published logged ∙ rw ready.name refl,
      )
