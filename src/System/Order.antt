-- ===== src/System/Order.antt =====
-- app/server: the order in which the maps of the coordinator are visited does not matter.
use kupool.Common.{
  Text, nat_key, text_key, Map, lookup, lookup-delete, Bytes, hex_encode, ℕ, ◌≡◌, refl, sym, ◌∙◌,
  List, [], ◌∷◌,
}
use kupool.Protocol.{Codec}
use kupool.State.{StateStore, Session, Effect, push, World}
use kupool.Coordinator.{Draw, run, rotate_job, broadcast_job, push_all, unregister_session, next_id}
use kupool.Coordinator.Broadcast.{run_round}
use kupool.Listener.{disconnect}
use kupool.Acceptor.{Accepted, ok, err, admit, accept, handshake}
use kupool.System.{Input, arrived, received, gone, ticked, serve, serve_all}
use kupool.System.Sessions.{IsKeyed, IsValid}
use kupool.System.Invariant.{serve-IsValid}
use kupool.System.Pipeline.{published}
use kupool.System.Handlers.{receive-Alike, open_session-Alike}
use kupool.System.Alike.{
  Alike, AlikeWorld, SameLog-write_frame, pushed_on, times_written, told_if, pushed_on-push_all,
  times_written-push_all,
}

published-push_all :
    (bytes : Bytes) (m : Map Text Session) (log : List Effect)
    → published (push_all bytes m log) ≡ published log
unfolding push_all
published-push_all bytes [] log = refl
published-push_all bytes ((k, s) ∷ m) log =
    published-push_all bytes m (push s.channel_id bytes ∷ log)

module _ {S : Type 0} (api : StateStore S) (codec : Codec) (sha256 : Bytes → Bytes) where
  pub run-published : (d : Draw) (w : World S) → published (run api codec d w).log ≡ published w.log
  unfolding run rotate_job broadcast_job
  run-published d w = published-push_all _ w.coord.sessions w.log

  run-pushed :
      (d : Draw) (w : World S) (k : Text)
      → IsKeyed w.coord.sessions
      → pushed_on k (run api codec d w).log
        ≡ told_if
            (lookup k w.coord.sessions)
            (codec.encode_broadcast
              (record { job_id = next_id w.coord.job_id; server_nonce = hex_encode d.buf }))
            (pushed_on k w.log)
  unfolding run rotate_job broadcast_job
  run-pushed d w k h = pushed_on-push_all _ w.coord.sessions w.log k h

  run-written :
      (d : Draw) (w : World S) (code : ℕ) (b : Bytes)
      → times_written code b (run api codec d w).log ≡ times_written code b w.log
  unfolding run rotate_job broadcast_job
  run-written d w code b = times_written-push_all _ w.coord.sessions w.log code b

  run-coord :
      (d : Draw) (w v : World S)
      → Alike w.coord v.coord
      → Alike (run api codec d w).coord (run api codec d v).coord
  unfolding run rotate_job broadcast_job
  run-coord d w v a = record {
    sessions = λ k.
        (run_round api codec d w k 0).1
        ∙ rw (a.sessions k, a.job_id) refl
        ∙ sym (run_round api codec d v k 0).1;
    history = λ j.
        (run_round api codec d w [] j).2
        ∙ rw (a.history j, a.job_id) refl
        ∙ sym (run_round api codec d v [] j).2;
    job_id = rw a.job_id refl;
    server_nonce = refl;
    expire_after = a.expire_after;
    nonce_interval = a.nonce_interval;
    history_window = a.history_window;
  }

  run-state :
      (d : Draw) (w v : World S)
      → AlikeWorld w v
      → (run api codec d w).state ≡ (run api codec d v).state
  unfolding run rotate_job broadcast_job
  run-state d w v h = rw (h.state, h.coord.job_id) refl

  run-Alike :
      (d : Draw) (w v : World S)
      → IsValid w.coord
      → IsValid v.coord
      → AlikeWorld w v
      → AlikeWorld (run api codec d w) (run api codec d v)
  run-Alike d w v valid valid' h = record {
    coord = run-coord d w v h.coord;
    state = run-state d w v h;
    log = record {
      published = run-published d w ∙ h.log.published ∙ sym (run-published d v);
      pushed = λ k.
          run-pushed d w k valid.is_keyed
          ∙ rw (h.coord.sessions k, h.coord.job_id, h.log.pushed k) refl
          ∙ sym (run-pushed d v k valid'.is_keyed);
      written = λ c b. run-written d w c b ∙ h.log.written c b ∙ sym (run-written d v c b);
    };
  }

  admit-Alike :
      (r : Accepted (ℕ × Text × Text)) (w v : World S)
      → AlikeWorld w v
      → AlikeWorld (admit api codec r w).1 (admit api codec r v).1
  admit-Alike (err e) w v h = h
  admit-Alike (ok (id, user, ch)) w v h =
      let opened = open_session-Alike api codec sha256 ch user w v h in
      record {
        coord = opened.coord;
        state = opened.state;
        log = SameLog-write_frame _ _ _ _ opened.log;
      }

  pub serve-Alike :
      (x : Input) (w v : World S)
      → IsValid w.coord
      → IsValid v.coord
      → AlikeWorld w v
      → AlikeWorld (serve api codec sha256 x w) (serve api codec sha256 x v)
  unfolding serve accept disconnect unregister_session
  serve-Alike (arrived read random) w v valid valid' h =
      admit-Alike (handshake api codec read random) w v h
  serve-Alike (received ch payload since now) w v valid valid' h =
      receive-Alike api codec sha256 ch payload since now w v h
  serve-Alike (gone ch) w v valid valid' h = record {
    coord = record {
      sessions = λ k.
          rw
            (
              lookup-delete ch k w.coord.sessions,
              lookup-delete ch k v.coord.sessions,
              h.coord.sessions k,
            )
            refl;
      history = h.coord.history;
      job_id = h.coord.job_id;
      server_nonce = h.coord.server_nonce;
      expire_after = h.coord.expire_after;
      nonce_interval = h.coord.nonce_interval;
      history_window = h.coord.history_window;
    };
    state = h.state;
    log = h.log;
  }
  serve-Alike (ticked d) w v valid valid' h = run-Alike d w v valid valid' h

  -- Two well-formed states of the server that differ only in the order in which the sessions and the
  -- history stand in their maps, and of whose logs the same holds, are still so behind any inputs,
  -- as long as every round ends, that is, every Push in it returns: every channel has the same
  -- session, every job the same record, the store is in the same state, the same events are
  -- published and the same is pushed on every channel, in the same order, and the same frames answer
  -- the connections.
  pub serve_all-AlikeWorld :
      (xs : List Input) (w v : World S)
      → IsValid w.coord
      → IsValid v.coord
      → AlikeWorld w v
      → AlikeWorld (serve_all api codec sha256 xs w) (serve_all api codec sha256 xs v)
  unfolding serve_all
  serve_all-AlikeWorld [] w v valid valid' h = h
  serve_all-AlikeWorld (x ∷ xs) w v valid valid' h =
      serve_all-AlikeWorld xs _ _ (serve-IsValid api codec sha256 x w valid)
        (serve-IsValid api codec sha256 x v valid') (serve-Alike x w v valid valid' h)
