-- ===== src/Postgres/Laws.antt =====
-- stats/pg.go: what the store relies on of PostgreSQL and gorm, and its methods under that.
use kupool.Common.{Text, Time, ℕ, ◌≡◌, refl, ap, ◌≢◌, ◌⊎◌, inl, inr, Bool, true, none, some, arith}
use kupool.State.{SavedJob}
use kupool.Postgres.{
  Submission, UserState, UsedNonce, Conflict, do_nothing, do_updates, Found, row, not_found, failed,
  Table, Model, user_model, nonce_model, Database, state_of, is_found, replace_state,
  save_user_state, load_user_state, save_used_nonce, has_used_nonce,
}

abbrev pub merged : {R : Type 0} → Conflict R → R → R → R
merged do_nothing old new = old
merged (do_updates f) old new = f old new

-- `INSERT … ON CONFLICT` on the primary key, where it reports no error: the row is new, or the
-- stored row is merged with it, and the other rows stay. A row is read as the database keeps it.
pub record IsTable {K R D : Type 0} (key : R → K) (keep : R → R) (t : Table K R D) : Type 0 where
  pub creates :
      (c : Conflict R) (r : R) (d : D)
      → (t.create c r d).0 ≡ none
      → t.first (key r) d ≡ not_found
      → t.first (key r) (t.create c r d).1 ≡ row (keep r)
  pub merges :
      (c : Conflict R) (r old : R) (d : D)
      → (t.create c r d).0 ≡ none
      → t.first (key r) d ≡ row old
      → t.first (key r) (t.create c r d).1 ≡ row (keep (merged c old r))
  pub others :
      (c : Conflict R) (r : R) (k : K) (d : D)
      → key r ≢ k
      → t.first k (t.create c r d).1 ≡ t.first k d

pub Found-cases :
    {R : Type 0} (f : Found R)
    → (f ≡ not_found) ⊎ (((r : R) × (f ≡ row r)) ⊎ ((x : Text) × (f ≡ failed x)))
Found-cases (row r) = inr (inl (r, refl))
Found-cases not_found = inl refl
Found-cases (failed x) = inr (inr (x, refl))

abbrev pub submission_key : Submission → Text × Time
submission_key s = (s.username, s.timestamp)

-- A time that the database keeps as `stored` of it, which for PostgreSQL is the time to the
-- microsecond.
abbrev pub kept_user : (Time → Time) → UserState → UserState
kept_user stored u = record u { last_submit_at = stored u.last_submit_at }

abbrev pub nonce_key : UsedNonce → Text × ℕ × Text
nonce_key u = (u.username, u.job_id, u.client_nonce)

module _ {D : Type 0} (db : Database D) (stored : Time → Time) where
  -- Every table is there as the models want it, so that `AutoMigrate` changes nothing.
  abbrev pub IsReady : D → Type 0
  IsReady d = (m : Model) → (db.auto_migrate m d).1 ≡ d

  -- The tables of the users and of the nonces are tables, a row of one is no row of the other, and
  -- rows do not change the schema.
  pub record IsStateDatabase : Type 0 where
    pub users : IsTable (λ (u : UserState). u.username) (kept_user stored) db.users
    pub nonces : IsTable nonce_key (λ r. r) db.nonces
    pub users_apart :
        (c : Conflict UserState) (r : UserState) (k : Text × ℕ × Text) (d : D)
        → db.nonces.first k (db.users.create c r d).1 ≡ db.nonces.first k d
    pub nonces_apart :
        (c : Conflict UsedNonce) (r : UsedNonce) (k : Text) (d : D)
        → db.users.first k (db.nonces.create c r d).1 ≡ db.users.first k d
    pub users_ready :
        (c : Conflict UserState) (r : UserState) (d : D)
        → IsReady d
        → IsReady (db.users.create c r d).1
    pub nonces_ready :
        (c : Conflict UsedNonce) (r : UsedNonce) (d : D)
        → IsReady d
        → IsReady (db.nonces.create c r d).1

  -- The rows that the methods write.
  abbrev pub user_of : Text → ℕ → Text → Time → UserState
  user_of u j n at = record {
    username = u;
    latest_job_id = j;
    latest_server_nonce = n;
    last_submit_at = at;
  }

  abbrev pub nonce_of : Text → ℕ → Text → UsedNonce
  nonce_of u j n = record { username = u; job_id = j; client_nonce = n }

  -- On a database that is ready the methods work on its tables as they stand.
  pub save_user_state-ready :
      (u : Text) (j : ℕ) (n : Text) (at : Time) (d : D)
      → IsReady d
      → save_user_state db u j n at d
        ≡ db.users.create (do_updates (replace_state j n at)) (user_of u j n at) d
  unfolding save_user_state
  save_user_state-ready u j n at d ready =
      ap (db.users.create (do_updates (replace_state j n at)) (user_of u j n at)) (ready user_model)

  pub load_user_state-ready :
      (u : Text) (d : D) → IsReady d → load_user_state db u d ≡ state_of (db.users.first u d)
  unfolding load_user_state
  load_user_state-ready u d ready = rw (ready user_model) refl

  -- A user's row behind a save, its time as it is stored, on a database that answers.
  pub saved_user :
      (laws : IsStateDatabase) (u : Text) (j : ℕ) (n : Text) (at : Time) (d : D) (old : SavedJob)
      → let r = db.users.create (do_updates (replace_state j n at)) (user_of u j n at) d in
        r.0 ≡ none
        → state_of (db.users.first u d) ≡ some old
        → state_of (db.users.first u r.1) ≡ some (record { job_id = j; nonce = n; at = stored at })
  saved_user laws u j n at d old saved answers = elim (Found-cases (db.users.first u d)) [
    | inl e ↦ rw (laws.users.creates _ _ d saved e) refl
    | inr (inl (o, e)) ↦ rw (laws.users.merges _ _ o d saved e) refl
    | inr (inr (x, e)) ↦ absurd (ground (arith, answers, e))
  ]

  pub save_used_nonce-ready :
      (u : Text) (j : ℕ) (n : Text) (d : D)
      → IsReady d
      → save_used_nonce db u j n d ≡ db.nonces.create do_nothing (nonce_of u j n) d
  unfolding save_used_nonce
  save_used_nonce-ready u j n d ready =
      ap (db.nonces.create do_nothing (nonce_of u j n)) (ready nonce_model)

  pub has_used_nonce-ready :
      (u : Text) (j : ℕ) (n : Text) (d : D)
      → IsReady d
      → has_used_nonce db u j n d ≡ is_found (db.nonces.first (u, j, n) d)
  unfolding has_used_nonce
  has_used_nonce-ready u j n d ready = rw (ready nonce_model) refl

  -- A nonce's row behind a save, on a database that answers.
  pub saved_nonce :
      (laws : IsStateDatabase) (u : Text) (j : ℕ) (n : Text) (d : D) (old : Bool)
      → let r = db.nonces.create do_nothing (nonce_of u j n) d in
        r.0 ≡ none
        → is_found (db.nonces.first (u, j, n) d) ≡ some old
        → is_found (db.nonces.first (u, j, n) r.1) ≡ some true
  saved_nonce laws u j n d old saved answers = elim (Found-cases (db.nonces.first (u, j, n) d)) [
    | inl e ↦ rw (laws.nonces.creates _ _ d saved e) refl
    | inr (inl (o, e)) ↦ rw (laws.nonces.merges _ _ o d saved e) refl
    | inr (inr (x, e)) ↦ absurd (ground (arith, answers, e))
  ]
