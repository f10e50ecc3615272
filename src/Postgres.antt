-- ===== src/Postgres.antt =====
-- stats/pg.go: the store over PostgreSQL. The calls of gorm are the fields of `Database`.
pub mod Laws
pub mod Agreement
pub mod Counts
use kupool.Common.{
  leb, Text, text_beq, nat_key, text_key, Map, insert, ℤ, pos, negsuc, Time, Duration,
  truncate_minute, ℕ, zero, suc, ◌+◌, ◌⊎◌, inl, inr, Bool, true, false, ◌&&◌, Option, none, some,
  List, [], ◌∷◌,
}
use kupool.State.{GoError, JobRecord, SavedJob, StateStore, StatsStore}

pub record Submission : Type 0 where
  pub username : Text
  pub timestamp : Time
  pub submission_count : ℕ

pub record JobHistory : Type 0 where
  pub job_id : ℕ
  pub server_nonce : Text
  pub created_at : Time

pub record UserState : Type 0 where
  pub username : Text
  pub latest_job_id : ℕ
  pub latest_server_nonce : Text
  pub last_submit_at : Time

pub record UsedNonce : Type 0 where
  pub username : Text
  pub job_id : ℕ
  pub client_nonce : Text

-- `clause.OnConflict`: the row stays, or it becomes what the stored and the excluded row make.
pub data Conflict (R : Type 0) : Type 0 where
  do_nothing : Conflict R
  do_updates : (R → R → R) → Conflict R

-- What `First` gives: a row, `ErrRecordNotFound`, or another error.
pub data Found (R : Type 0) : Type 0 where
  row : R → Found R
  not_found : Found R
  failed : Text → Found R

-- A table with rows `R` under primary keys `K`: `Clauses(…).Create(…)`, `First` with the key in its
-- `Where`, and `Find`, which gives `none` for an error.
pub record Table (K R D : Type 0) : Type 0 where
  pub create : Conflict R → R → D → GoError × D
  pub first : K → D → Found R
  pub find : (R → Bool) → D → Option (List R)

pub data Model : Type 0 where
  submission_model job_model user_model nonce_model : Model

-- The database in its states `D`. `last_job` is `Order("job_id DESC").First`, `top` and `sum` are
-- the two aggregates over the rows that are selected.
pub record Database (D : Type 0) : Type 0 where
  pub auto_migrate : Model → D → GoError × D
  pub submissions : Table (Text × Time) Submission D
  pub jobs : Table ℕ JobHistory D
  pub users : Table Text UserState D
  pub nonces : Table (Text × ℕ × Text) UsedNonce D
  pub last_job : D → Found JobHistory
  pub top : (Submission → Bool) → ℤ → D → Option (List (Text × ℕ))
  pub sum : (Submission → Bool) → D → Option ℕ
  pub close : D → GoError × D

abbrev pub at_conflict : Submission → Submission → Submission
at_conflict stored excluded = record {
  username = stored.username;
  timestamp = stored.timestamp;
  submission_count = excluded.submission_count + 1;
}

abbrev pub replace_state : ℕ → Text → Time → UserState → UserState → UserState
replace_state job nonce at stored excluded = record {
  username = stored.username;
  latest_job_id = job;
  latest_server_nonce = nonce;
  last_submit_at = at;
}

abbrev between : Time → Time → Submission → Bool
between from upto s = leb from s.timestamp && leb s.timestamp upto

-- `result[sub.Timestamp] = sub.SubmissionCount` for each row.
unfoldable pub collect_counts : List Submission → Map Time ℕ → Map Time ℕ
collect_counts [] m = m
collect_counts (s ∷ rows) m = collect_counts rows (insert s.timestamp s.submission_count m)

unfoldable pub collect_jobs : List JobHistory → Map ℕ JobRecord → Map ℕ JobRecord
collect_jobs [] m = m
collect_jobs (j ∷ rows) m =
    let rec : JobRecord = record { nonce = j.server_nonce; created_at = j.created_at } in
    collect_jobs rows (insert j.job_id rec m)

-- `q.Where("created_at >= ?", time.Now().Add(-since))`, for a window that is positive.
abbrev is_recent : Duration → Time → JobHistory → Bool
is_recent (pos zero) now j = true
is_recent (pos (suc d)) now j = leb now (j.created_at + suc d)
is_recent (negsuc d) now j = true

-- What the methods make of an answer: no row reads as the zero value, without an error.
abbrev pub count_of : Found Submission → Option ℕ
count_of (row rec) = some rec.submission_count
count_of not_found = some 0
count_of (failed e) = none

abbrev pub state_of : Found UserState → Option SavedJob
state_of (row u) =
    some (record { job_id = u.latest_job_id; nonce = u.latest_server_nonce; at = u.last_submit_at })
state_of not_found = some (record { job_id = 0; nonce = []; at = 0 })
state_of (failed e) = none

abbrev pub is_found : Found UsedNonce → Option Bool
is_found (row u) = some true
is_found not_found = some false
is_found (failed e) = none

module _ {D : Type 0} (db : Database D) where
  -- `_ = s.db.AutoMigrate(…)`. The loading methods do not hand back the database: every method
  -- makes its table again.
  abbrev pub migrated : Model → D → D
  migrated m d = (db.auto_migrate m d).1

  unfoldable pub ensure_schema : D → GoError × D
  ensure_schema d = db.auto_migrate submission_model d

  abbrev pub schema_ready : GoError × D → GoError ⊎ D
  schema_ready (none, d) = inr d
  schema_ready (some e, d) = inl (some e)

  -- `NewPGStore`, over what `gorm.Open` returns: an error or a database.
  unfoldable pub new_pg_store : Text ⊎ D → GoError ⊎ D
  new_pg_store (inl e) = inl (some e)
  new_pg_store (inr d) = schema_ready (ensure_schema d)

  unfoldable pub increment : Text → Time → D → GoError × D
  increment username time d =
      let r : Submission = record {
        username = username;
        timestamp = truncate_minute time;
        submission_count = 1;
      } in
      db.submissions.create (do_updates at_conflict) r d

  unfoldable pub get : Text → Time → D → Option ℕ
  get username time d = count_of (db.submissions.first (username, truncate_minute time) d)

  unfoldable pub close : D → GoError × D
  close d = db.close d

  -- The order of the rows does not show in a Go map.
  unfoldable pub get_user_submissions_by_time_range : Text → Time → Time → D → Option (Map Time ℕ)
  get_user_submissions_by_time_range username from upto d =
      elim (db.submissions.find (λ s. text_beq s.username username && between from upto s) d) [
        | none ↦ none
        | some rows ↦ some (collect_counts rows [])
      ]

  unfoldable pub get_top_users_by_submissions : Time → Time → ℤ → D → Option (List (Text × ℕ))
  get_top_users_by_submissions from upto limit d = db.top (between from upto) limit d

  unfoldable pub get_total_submissions : Time → Time → D → Option ℕ
  get_total_submissions from upto d = db.sum (between from upto) d

  unfoldable pub save_job : ℕ → Text → Time → D → GoError × D
  save_job job_id nonce created_at d =
      let r : JobHistory = record {
        job_id = job_id;
        server_nonce = nonce;
        created_at = created_at;
      } in
      db.jobs.create do_nothing r (migrated job_model d)

  unfoldable pub load_latest_job : D → Option SavedJob
  load_latest_job d = elim (db.last_job (migrated job_model d)) [
    | row j ↦ some (record { job_id = j.job_id; nonce = j.server_nonce; at = j.created_at })
    | not_found ↦ some (record { job_id = 0; nonce = []; at = 0 })
    | failed e ↦ none
  ]

  unfoldable pub load_job_history : Duration → Time → D → Option (Map ℕ JobRecord)
  load_job_history since now d = elim (db.jobs.find (is_recent since now) (migrated job_model d)) [
    | none ↦ none
    | some js ↦ some (collect_jobs js [])
  ]

  unfoldable pub load_user_state : Text → D → Option SavedJob
  load_user_state username d = state_of (db.users.first username (migrated user_model d))

  unfoldable pub save_user_state : Text → ℕ → Text → Time → D → GoError × D
  save_user_state username job nonce at d =
      let r : UserState = record {
        username = username;
        latest_job_id = job;
        latest_server_nonce = nonce;
        last_submit_at = at;
      } in
      db.users.create (do_updates (replace_state job nonce at)) r (migrated user_model d)

  unfoldable pub save_used_nonce : Text → ℕ → Text → D → GoError × D
  save_used_nonce username job nonce d =
      let r : UsedNonce = record { username = username; job_id = job; client_nonce = nonce } in
      db.nonces.create do_nothing r (migrated nonce_model d)

  unfoldable pub has_used_nonce : Text → ℕ → Text → D → Option Bool
  has_used_nonce username job nonce d =
      is_found (db.nonces.first (username, job, nonce) (migrated nonce_model d))

  -- The store serves both interfaces.
  abbrev pub pg_state_store : StateStore D
  pg_state_store = record {
    save_job = save_job;
    load_latest_job = load_latest_job;
    load_job_history = load_job_history;
    load_user_state = load_user_state;
    save_user_state = save_user_state;
    save_used_nonce = save_used_nonce;
    has_used_nonce = has_used_nonce;
    close = close;
  }

  abbrev pub pg_stats_store : StatsStore D
  pg_stats_store = record {
    increment = λ u t. increment u t.instant;
    get = λ u t. get u t.instant;
    close = close;
  }
