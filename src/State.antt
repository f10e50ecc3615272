-- ===== src/State.antt =====
-- app/server/types.go and events/events.go: the state of the server, and the interfaces that it
-- is built over.
use kupool.Common.{Text, Map, Bytes, Time, Duration, Stamp, ℕ, Bool, Option, none, some, List, ◌∷◌}

-- A Go error; `none` is nil.
abbrev pub GoError : Type 0
GoError = Option Text

-- A Go set is the list of its elements.
pub record Session : Type 0 where
  pub channel_id : Text
  pub username : Text
  pub latest_job_id : ℕ
  pub latest_server_nonce : Text
  pub last_submit_at : Time
  pub used_nonces : Map ℕ (List Text)

pub record JobRecord : Type 0 where
  pub nonce : Text
  pub created_at : Time

pub record SubmitEvent : Type 0 where
  pub username : Text
  pub time : Stamp

pub record Coordinator : Type 0 where
  pub sessions : Map Text Session
  pub job_id : ℕ
  pub server_nonce : Text
  pub nonce_interval : Duration
  pub history_window : Duration
  pub history : Map ℕ JobRecord
  pub expire_after : Duration

-- A job id with its nonce and a time, as the loading methods return it.
pub record SavedJob : Type 0 where
  pub job_id : ℕ
  pub nonce : Text
  pub at : Time

-- `StateStore` over a state `S`; a loading method gives `none` for an error.
pub record StateStore (S : Type 0) : Type 0 where
  pub save_job : ℕ → Text → Time → S → GoError × S
  pub load_latest_job : S → Option SavedJob
  pub load_job_history : Duration → Time → S → Option (Map ℕ JobRecord)
  pub load_user_state : Text → S → Option SavedJob
  pub save_user_state : Text → ℕ → Text → Time → S → GoError × S
  pub save_used_nonce : Text → ℕ → Text → S → GoError × S
  pub has_used_nonce : Text → ℕ → Text → S → Option Bool
  pub close : S → GoError × S

-- `StatsStore`.
pub record StatsStore (S : Type 0) : Type 0 where
  pub increment : Text → Stamp → S → GoError × S
  pub get : Text → Stamp → S → Option ℕ
  pub close : S → GoError × S

-- A call that leaves the server: `Push` on a channel, a frame on a connection that is not a
-- channel yet, `Publish` on the message queue. The callers ignore what these return.
pub data Effect : Type 0 where
  push : Text → Bytes → Effect
  write_frame : ℕ → Bytes → Effect
  publish : SubmitEvent → Effect

-- The coordinator, the state store (`none` is a nil interface), and the calls made so far, the
-- newest first.
pub record World (S : Type 0) : Type 0 where
  pub coord : Coordinator
  pub state : Option S
  pub log : List Effect

module _ {S : Type 0} where
  abbrev pub with_coord : (Coordinator → Coordinator) → World S → World S
  with_coord f w = record w { coord = f w.coord }

  abbrev pub emit : Effect → World S → World S
  emit x w = record w { log = x ∷ w.log }

  -- `if c.state != nil { _ = c.state.save(…) }`
  abbrev pub saving : (S → GoError × S) → Option S → Option S
  saving save none = none
  saving save (some s) = some (save s).1
