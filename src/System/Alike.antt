-- ===== src/System/Alike.antt =====
-- app/server: states of the server that differ only in the order of their maps, which Go leaves
-- open, and what the handlers of the connections make of them.
use kupool.Common.{
  ◌==◌, if◌then◌else◌, Text, text_beq, text_beq_iff, nat_key, text_key, Map, lookup, lookup-insert,
  Bytes, Time, stamp_key, ℕ, ◌+◌, ◌≡◌, refl, ap, ◌&&◌, Option, none, some, List, [], ◌∷◌, ◌++◌,
  arith,
}
use kupool.Protocol.{SubmitParams}
use kupool.State.{Session, Coordinator, World}
use kupool.Submit.{submit, check_submit, select_job}
use kupool.State.{Effect, SubmitEvent, push, write_frame, publish}
use kupool.Coordinator.{push_all}
use kupool.System.Sessions.{IsKeyed}
use kupool.System.Pipeline.{published}
use kupool.Listener.{put_session}

-- The same coordinator, with its maps in another order.
pub record Alike (c d : Coordinator) : Type 0 where
  pub sessions : (k : Text) → lookup k c.sessions ≡ lookup k d.sessions
  pub history : (j : ℕ) → lookup j c.history ≡ lookup j d.history
  pub job_id : c.job_id ≡ d.job_id
  pub server_nonce : c.server_nonce ≡ d.server_nonce
  pub expire_after : c.expire_after ≡ d.expire_after
  pub nonce_interval : c.nonce_interval ≡ d.nonce_interval
  pub history_window : c.history_window ≡ d.history_window

pub put_session-Alike :
    (ch : Text) (s : Session) (c d : Coordinator)
    → Alike c d
    → Alike (put_session ch s c) (put_session ch s d)
unfolding put_session
put_session-Alike ch s c d a = record {
  sessions =
      λ k. rw (lookup-insert ch k s c.sessions, lookup-insert ch k s d.sessions, a.sessions k) refl;
  history = a.history;
  job_id = a.job_id;
  server_nonce = a.server_nonce;
  expire_after = a.expire_after;
  nonce_interval = a.nonce_interval;
  history_window = a.history_window;
}

select_job-Alike :
    (c d : Coordinator) (p : SubmitParams) (since : Time) (s : Session)
    → Alike c d
    → select_job c p since s ≡ select_job d p since s
unfolding select_job
select_job-Alike c d p since s a = ground (arith, a.history p.job_id, a.expire_after)

pub submit-Alike :
    (sha256 : Bytes → Bytes) (c d : Coordinator) (p : SubmitParams) (since now : Time) (s : Session)
    → Alike c d
    → submit sha256 c p since now s ≡ submit sha256 d p since now s
unfolding submit check_submit
submit-Alike sha256 c d p since now s a = rw (select_job-Alike c d p since s a) refl

-- What is pushed on a channel, the newest first.
unfoldable pub pushed_on : Text → List Effect → List Bytes
pushed_on k [] = []
pushed_on k (push id bytes ∷ log) =
    let rest = pushed_on k log in if text_beq id k then bytes ∷ rest else rest
pushed_on k (write_frame code bytes ∷ log) = pushed_on k log
pushed_on k (publish evt ∷ log) = pushed_on k log

-- How often a frame is written on a connection that is no channel yet.
unfoldable pub times_written : ℕ → Bytes → List Effect → ℕ
times_written code bytes [] = 0
times_written code bytes (write_frame op b ∷ log) =
    let rest = times_written code bytes log in
    if op == code && text_beq b bytes then rest + 1 else rest
times_written code bytes (push id b ∷ log) = times_written code bytes log
times_written code bytes (publish evt ∷ log) = times_written code bytes log

-- The same calls in another order: the same events are published in the same order, the same is
-- pushed on every channel in the same order, and the same frames answer the connections, of which
-- each gets one.
pub record SameLog (l m : List Effect) : Type 0 where
  pub published : published l ≡ published m
  pub pushed : (k : Text) → pushed_on k l ≡ pushed_on k m
  pub written : (code : ℕ) (bytes : Bytes) → times_written code bytes l ≡ times_written code bytes m

-- The same state of the server, but for the order of the maps.
pub record AlikeWorld {S : Type 0} (w v : World S) : Type 0 where
  pub coord : Alike w.coord v.coord
  pub state : w.state ≡ v.state
  pub log : SameLog w.log v.log

pub SameLog-push :
    (id : Text) (bytes : Bytes) (l m : List Effect)
    → SameLog l m
    → SameLog (push id bytes ∷ l) (push id bytes ∷ m)
unfolding pushed_on times_written
SameLog-push id bytes l m h = record {
  published = h.published;
  pushed = λ k. rw (h.pushed k) refl;
  written = h.written;
}

pub SameLog-publish :
    (l m : List Effect) (evt : SubmitEvent)
    → SameLog l m
    → SameLog (publish evt ∷ l) (publish evt ∷ m)
unfolding pushed_on times_written
SameLog-publish l m evt h = record {
  published = ap (λ (x : List SubmitEvent). x ++ evt ∷ []) h.published;
  pushed = h.pushed;
  written = h.written;
}

pub SameLog-write_frame :
    (l m : List Effect) (code : ℕ) (bytes : Bytes)
    → SameLog l m
    → SameLog (write_frame code bytes ∷ l) (write_frame code bytes ∷ m)
unfolding pushed_on times_written
SameLog-write_frame l m code bytes h = record {
  published = h.published;
  pushed = h.pushed;
  written = λ c b. rw (h.written c b) refl;
}

-- What a broadcast adds to the pushes of a channel.
abbrev pub told_if : Option Session → Bytes → List Bytes → List Bytes
told_if none bytes l = l
told_if (some s) bytes l = bytes ∷ l

pub pushed_on-push_all :
    (bytes : Bytes) (m : Map Text Session) (log : List Effect) (k : Text)
    → IsKeyed m
    → pushed_on k (push_all bytes m log) ≡ told_if (lookup k m) bytes (pushed_on k log)
unfolding push_all pushed_on lookup
pushed_on-push_all bytes [] log k h = refl
pushed_on-push_all bytes ((j, s) ∷ m) log k h = ground (
  arith,
  pushed_on-push_all bytes m (push s.channel_id bytes ∷ log) k h.2,
  h.0,
  h.1,
  text_beq_iff j k,
)

pub times_written-push_all :
    (bytes : Bytes) (m : Map Text Session) (log : List Effect) (code : ℕ) (b : Bytes)
    → times_written code b (push_all bytes m log) ≡ times_written code b log
unfolding push_all times_written
times_written-push_all bytes [] log code b = refl
times_written-push_all bytes ((j, s) ∷ m) log code b =
    times_written-push_all bytes m (push s.channel_id bytes ∷ log) code b
