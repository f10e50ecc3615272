-- ===== src/System/Rounds.antt =====
-- app/client/client.go against app/server: many rounds of the coordinator's loop with one client.
use kupool.Common.{
  ◌==◌, if◌then◌else◌, length, All, Text, text_beq_iff, nat_key, text_key, lookup, Bytes, IsByte,
  hex_encode, IsAscii, hex_encode-IsAscii, Time, second, truncate_minute, Stamp, local,
  truncate_stamp, stamp_beq, ℕ, ◌+◌, ◌%◌, ◌^◌, ◌≤◌, ◌<◌, ◌≡◌, refl, sym, ap, ◌∙◌, ◌≢◌, ◌⊎◌, inr,
  some, List, [], ◌∷◌, ◌++◌, arith,
}
use mathlib.Core.List.{append-nil, append_assoc}
use kupool.Protocol.{Codec}
use kupool.Protocol.Laws.{IsFaithful}
use kupool.State.{Session, SubmitEvent, StateStore, World}
use kupool.Coordinator.{run, rotate_job, broadcast_job}
use kupool.Coordinator.Broadcast.{run_round}
use kupool.Submit.{used_for}
use kupool.Submit.Decision.{IsRested}
use kupool.Listener.{receive}
use kupool.Client.{send_submit, on_job}
use kupool.Client.Honest.{submission}
use kupool.System.Order.{run-published}
use kupool.System.Pipeline.{published}
use kupool.System.Play.{holding, on_frame-job, on_job-sent}
use kupool.Acceptor.{ok, accept}
use kupool.Acceptor.Admission.{first_session, accept_opens}
use kupool.Client.{new_client, authorize_frame}
use kupool.Memory.{new_memory_store, get}
use kupool.Memory.Counts.{increments, count, get-increments}
use kupool.System.Debut.{first_session-new, authorize_frame-IsHandshake}
use kupool.System.Mining.{
  Round, Mine, play, play_all, IsReady, next_job, told_of, run-IsReady, received-IsReady,
}

-- The first round comes at the time or later, and each other a second behind the one before.
abbrev pub IsSpaced : Time → List Round → Type 0
IsSpaced t [] = Unit
IsSpaced t (r ∷ rs) = (t ≤ r.now) × IsSpaced (r.now + second) rs

abbrev pub IsDrawn : List Round → Type 0
IsDrawn = All (λ r. All IsByte r.draw.buf × All IsByte r.turn.buf)

-- The event of each round.
abbrev pub wages : Text → List Round → List SubmitEvent
wages user [] = []
wages user (r ∷ rs) = record { username = user; time = local r.now } ∷ wages user rs

-- How many rounds fall into the minute of a time.
unfoldable pub rounds_in : Time → List Round → ℕ
rounds_in t [] = 0
rounds_in t (r ∷ rs) =
    let rest = rounds_in t rs in
    if truncate_minute r.now == truncate_minute t then rest + 1 else rest

count-wages :
    (user : Text) (t : Stamp) (rs : List Round)
    → count user t (wages user rs) ≡ (if t.zone == 0 then rounds_in t.instant rs else 0)
unfolding count stamp_beq truncate_stamp rounds_in
count-wages user t [] = ground arith
count-wages user t (r ∷ rs) = ground (arith, (text_beq_iff user user).1 refl, count-wages user t rs)

module _ (codec : Codec) (laws : IsFaithful codec) (sha256 : Bytes → Bytes)
    (digests : (b : Bytes) → All IsByte (sha256 b)) {S : Type 0} (api : StateStore S) where
  play-on_job :
      (ch : Text) (r : Round) (m : Mine S)
      → All IsByte r.draw.buf
      → let p = next_job codec sha256 api r m in
        play codec sha256 api ch r m ≡ record {
          world =
              receive api codec sha256 ch
                (submission codec sha256 (holding codec sha256 p m.client) r.turn)
                r.since
                r.now
                (run api codec r.draw m.world);
          client = on_job codec sha256 p r.turn m.client;
        }
  unfolding play run rotate_job broadcast_job
  play-on_job ch r m bytes =
      let p = next_job codec sha256 api r m in
      let read =
        on_frame-job codec laws sha256 p r.turn m.client (omega arith)
          (hex_encode-IsAscii r.draw.buf bytes) in
      rw (read, on_job-sent codec sha256 p r.turn m.client) refl

  -- What a round leaves for the next one, `t` being its time.
  pub record IsPlayed (ch user : Text) (t : Time) (m : Mine S) : Type 0 where
    pub session : Session
    pub ready : IsReady codec sha256 api ch user m.world.coord session
    pub rested : (session.last_submit_at ≡ 0) ⊎ (session.last_submit_at + second ≤ t)

  play-IsPlayed :
      (ch user : Text) (t : Time) (r : Round) (m : Mine S)
      → IsPlayed ch user t m
      → t ≤ r.now
      → All IsByte r.draw.buf
      → All IsByte r.turn.buf
      → m.world.coord.job_id + 1 < 2 ^ 64
      → m.client.next_id + 1 < 2 ^ 64
      → let m' = play codec sha256 api ch r m in
        IsPlayed ch user (r.now + second) m'
        × (m'.world.coord.job_id ≡ m.world.coord.job_id + 1)
        × (m'.client.next_id ≡ m.client.next_id + 1)
        × (published m'.world.log
            ≡ published m.world.log ++ record { username = user; time = local r.now } ∷ [])
  unfolding used_for on_job send_submit
  play-IsPlayed ch user t r m played late d_bytes t_bytes jobs ids =
      let p = next_job codec sha256 api r m in
      let s = told_of codec sha256 api p played.session in
      let w = run api codec r.draw m.world in
      let here = run-IsReady codec sha256 api ch user r m played.session played.ready jobs in
      let job = (run_round api codec r.draw m.world ch 0).0 in
      let fresh : used_for p.job_id s ≡ [] = played.ready.unused p.job_id (omega (arith, jobs)) in
      let rest : IsRested s r.now = ground (arith, played.rested, late) in
      let got =
        received-IsReady codec sha256 api laws digests ch user (holding codec sha256 p m.client)
          r.turn r.since r.now w s here refl refl (sym job) fresh (omega (arith, ids)) (omega arith)
          t_bytes rest in
      let (s', ready, last) = got.0 in
      rw (play-on_job ch r m d_bytes) (
        record { session = s'; ready = ready; rested = inr (omega (arith, last)) },
        got.1 ∙ job ∙ omega (arith, jobs),
        omega (arith, ids),
        got.2
            ∙ ap
                (λ (l : List SubmitEvent). l ++ record { username = user; time = local r.now } ∷ [])
                (run-published api codec sha256 r.draw m.world),
      )

  -- A user with a session plays any number of rounds, each a second or more behind the one before.
  -- In every one the coordinator tells of a new job, the client submits at once, and the listener
  -- accepts: the events of exactly these rounds are published, in order, under the user's name. The
  -- numbers of the jobs and of the requests have 64 bits, which are not used up; the random bytes
  -- may be any, the same again too.
  pub play_all-wages :
      (ch user : Text) (t : Time) (rs : List Round) (m : Mine S)
      → IsPlayed ch user t m
      → IsSpaced t rs
      → IsDrawn rs
      → m.world.coord.job_id + length rs < 2 ^ 64
      → m.client.next_id + length rs < 2 ^ 64
      → published (play_all codec sha256 api ch rs m).world.log
        ≡ published m.world.log ++ wages user rs
  unfolding play_all
  play_all-wages ch user t [] m played spaced drawn jobs ids =
      sym (append-nil (published m.world.log))
  play_all-wages ch user t (r ∷ rs) m played spaced drawn jobs ids =
      let step =
        play-IsPlayed ch user t r m played spaced.0 drawn.0.0 drawn.0.1 (omega (arith, jobs))
          (omega (arith, ids)) in
      let rest =
        play_all-wages ch user (r.now + second) rs (play codec sha256 api ch r m) step.0 spaced.1
          drawn.1 (omega (arith, jobs, step.1)) (omega (arith, ids, step.2)) in
      rest
      ∙ ap (λ (l : List SubmitEvent). l ++ wages user rs) step.3
      ∙ append_assoc (published m.world.log) _ (wages user rs)

  -- The session of a user that has just been admitted can be played with.
  accept-IsPlayed :
      (username : Text) (buf : Bytes) (w : World S) (t : Time)
      → IsAscii username
      → username ≢ []
      → IsRested (first_session api codec w.state (hex_encode buf) username) t
      → let r = accept api codec (some (authorize_frame codec sha256 username)) (some buf) w in
        IsPlayed (hex_encode buf) username t (record { world = r.1; client = new_client username })
        × (r.0 ≡ ok (hex_encode buf))
        × (published r.1.log ≡ published w.log)
        × (r.1.coord.job_id ≡ w.coord.job_id)
  unfolding used_for lookup
  accept-IsPlayed username buf w t ascii named rested =
      let ch : Text = hex_encode buf in
      let shake = authorize_frame-IsHandshake codec laws sha256 api username ascii named in
      let opened =
        accept_opens api codec (some (authorize_frame codec sha256 username)) 1 username buf w ch
          shake in
      let (own, name, unused) = first_session-new codec laws sha256 api w.state ch username in
      (
        record {
          session = first_session api codec w.state ch username;
          ready = record {
            known = opened.1.0 ∙ rw ((text_beq_iff ch ch).1 refl) refl;
            own = own;
            name = name;
            unused = λ j h. ground (arith, unused);
          };
          rested = rested;
        },
        opened.0,
        ap published opened.2,
        opened.1.1,
      )

  -- On a server that has published nothing yet a user with a name of ASCII characters is admitted
  -- and plays any number of rounds, each a second or more behind the one before, the first one a
  -- second behind what the state store knows of the user. When the events that were published are
  -- stored in a new memory store, it returns for every minute of the location `Local` the number of
  -- the rounds whose time falls into it, modulo 2^64, and 0 for a minute of another location, which
  -- is another key of the map. The numbers of the jobs and of the requests are not used up.
  pub accept-play_all :
      (username : Text) (buf : Bytes) (w : World S) (t : Time) (rs : List Round) (instant : Stamp)
      → IsAscii username
      → username ≢ []
      → IsRested (first_session api codec w.state (hex_encode buf) username) t
      → published w.log ≡ []
      → IsSpaced t rs
      → IsDrawn rs
      → w.coord.job_id + length rs < 2 ^ 64
      → 1 + length rs < 2 ^ 64
      → let r = accept api codec (some (authorize_frame codec sha256 username)) (some buf) w in
        let m : Mine S = record { world = r.1; client = new_client username } in
        (r.0 ≡ ok (hex_encode buf))
        × (get username instant (
              increments
                (published (play_all codec sha256 api (hex_encode buf) rs m).world.log)
                new_memory_store)
            ≡ some ((if instant.zone == 0 then rounds_in instant.instant rs else 0) % 2 ^ 64))
  unfolding new_client
  accept-play_all username buf w t rs instant ascii named rested fresh spaced drawn jobs ids =
      let (played, admitted, same, job) = accept-IsPlayed username buf w t ascii named rested in
      let r = accept api codec (some (authorize_frame codec sha256 username)) (some buf) w in
      let m : Mine S = record { world = r.1; client = new_client username } in
      let mined =
        play_all-wages (hex_encode buf) username t rs m played spaced drawn
          (omega (arith, job, jobs)) ids
        ∙ ap (λ (l : List SubmitEvent). l ++ wages username rs) (same ∙ fresh) in
      (
        admitted,
        rw (mined, ← count-wages username instant rs)
            (get-increments username instant (wages username rs)),
      )
