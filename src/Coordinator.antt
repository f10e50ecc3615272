-- ===== src/Coordinator.antt =====
-- app/server/coordinator.go: sessions, the current job and its history, and their broadcast.
pub mod Broadcast
pub mod Phases
use kupool.Common.{
  ltb, if◌then◌else◌, Text, nat_key, text_key, Map, insert, delete, Bytes, hex_encode, Time,
  Duration, ℕ, ◌+◌, ◌%◌, ◌^◌, ◌&&◌, Option, none, some, List, [], ◌∷◌,
}
use kupool.Protocol.{Codec, JobParams}
use kupool.State.{
  Session, JobRecord, SavedJob, Coordinator, StateStore, Effect, push, World, with_coord, emit,
  saving,
}

unfoldable pub new_coordinator : Duration → Duration → Duration → Coordinator
new_coordinator interval expire history_window = record {
  sessions = [];
  job_id = 0;
  server_nonce = [];
  nonce_interval = interval;
  history_window = history_window;
  history = [];
  expire_after = expire;
}

abbrev pub new_session : Text → Text → Session
new_session channel_id username = record {
  channel_id = channel_id;
  username = username;
  latest_job_id = 0;
  latest_server_nonce = [];
  last_submit_at = 0;
  used_nonces = [];
}

unfoldable pub register_session : Text → Text → Coordinator → Coordinator
register_session channel_id username c = record c {
  sessions = insert channel_id (new_session channel_id username) c.sessions;
}

unfoldable pub unregister_session : Text → Coordinator → Coordinator
unregister_session channel_id c = record c { sessions = delete channel_id c.sessions }

-- `c.jobID++` on a 64-bit int.
abbrev pub next_id : ℕ → ℕ
next_id n = (n + 1) % 2 ^ 64

-- The nonces and times that one round of the loop draws: 16 random bytes, the time in the history
-- and the time handed to the state store.
pub record Draw : Type 0 where
  pub buf : Bytes
  pub created_at : Time
  pub saved_at : Time

abbrev pub new_job : Draw → Coordinator → Coordinator
new_job d c =
    let id : ℕ = next_id c.job_id in
    let nonce : Text = hex_encode d.buf in
    record c {
      job_id = id;
      server_nonce = nonce;
      history = insert id (record { nonce = nonce; created_at = d.created_at }) c.history;
    }

-- The loop of `broadcastJob` under its lock: every session of the snapshot is told of the job.
unfoldable pub tell : ℕ → Text → Map Text Session → Map Text Session
tell job nonce [] = []
tell job nonce ((k, s) ∷ m) =
    (k, record s { latest_job_id = job; latest_server_nonce = nonce }) ∷ tell job nonce m

-- The calls of `Push` of a broadcast that ends: the loop goes on when a Push has returned, and the
-- lock is held until then.
unfoldable pub push_all : Bytes → Map Text Session → List Effect → List Effect
push_all bytes [] log = log
push_all bytes ((k, s) ∷ m) log = push_all bytes m (push s.channel_id bytes ∷ log)

-- `for id, rec := range hist { c.history[id] = rec }`
unfoldable pub merge_history : Map ℕ JobRecord → Map ℕ JobRecord → Map ℕ JobRecord
merge_history [] history = history
merge_history ((id, rec) ∷ hist) history = merge_history hist (insert id rec history)

abbrev restore_latest : Option SavedJob → Coordinator → Coordinator
restore_latest none c = c
restore_latest (some j) c =
    if ltb 0 j.job_id && ltb j.job_id (2 ^ 63)
    then record c {
      job_id = j.job_id;
      server_nonce = j.nonce;
      history = insert j.job_id (record { nonce = j.nonce; created_at = j.at }) c.history;
    }
    else c

abbrev restore_history : Option (Map ℕ JobRecord) → Coordinator → Coordinator
restore_history none c = c
restore_history (some hist) c = record c { history = merge_history hist c.history }

-- What ends a wait of the loop: its ticker, or `Stop`.
pub data Wake : Type 0 where
  tick : Draw → Wake
  stop : Wake

module _ {S : Type 0} (api : StateStore S) (codec : Codec) where
  unfoldable pub rotate_job : Draw → World S → World S
  rotate_job d w =
      let c = new_job d w.coord in
      record w {
        coord = c;
        state = saving (api.save_job c.job_id c.server_nonce d.saved_at) w.state;
      }

  unfoldable pub broadcast_job : World S → World S
  broadcast_job w =
      let c = w.coord in
      let msg : JobParams = record { job_id = c.job_id; server_nonce = c.server_nonce } in
      record w {
        coord = record c { sessions = tell c.job_id c.server_nonce c.sessions };
        log = push_all (codec.encode_broadcast msg) c.sessions w.log;
      }

  unfoldable pub run : Draw → World S → World S
  run d w = broadcast_job (rotate_job d w)

  -- `now` is the time at which the state store looks for the history.
  unfoldable pub restore : Time → World S → World S
  restore now w = elim w.state [
    | none ↦ w
    | some s ↦
        let c = restore_latest (api.load_latest_job s) w.coord in
        record w { coord = restore_history (api.load_job_history c.history_window now s) c }
  ]

  unfoldable pub rounds : List Wake → World S → World S
  rounds [] w = w
  rounds (tick d ∷ ws) w = rounds ws (run d w)
  rounds (stop ∷ ws) w = w

  unfoldable pub loop : Time → Draw → List Wake → World S → World S
  loop now d ws w = rounds ws (run d (restore now w))
