-- ===== src/Examples/Database.antt =====
-- A database of the tests: four maps, and the store over it.
use kupool.Common.{
  ◌==◌, if◌then◌else◌, Bool-cases, Eq, Text, text_beq, text_beq_iff, nat_key, text_key, beq_refl,
  Map, lookup, insert, lookup-insert, codes, Time, ℕ, ◌+◌, ◌*◌, ◌/◌, ◌≡◌, refl, ap, ◌∙◌, ◌≢◌, ◌↔◌,
  inl, inr, Bool, true, ◌&&◌, Option, none, some, List, [], ◌∷◌, arith,
}
use kupool.Memory.{new_memory_store}
use kupool.Memory
use kupool.Postgres.{
  Submission, JobHistory, UserState, UsedNonce, Conflict, Found, row, not_found, Table, Database,
  increment, save_user_state, load_user_state, save_used_nonce,
}
use kupool.Postgres.Laws.{IsTable, IsStateDatabase, merged, submission_key, nonce_key, kept_user}
use kupool.Postgres.Agreement.{
  Save, user_saved, nonce_saved, mem_saves, pg_saves, pg_saves-mem_saves,
}

pair-beq_iff :
    {A B : Type 0} ⦃e : Eq A⦄ ⦃f : Eq B⦄ (x y : A × B)
    → ((e.beq x.0 y.0 && f.beq x.1 y.1) ≡ true) ↔ (x ≡ y)
pair-beq_iff ⦃e⦄ ⦃f⦄ x y = ground (arith, e.beq_iff x.0 y.0, f.beq_iff x.1 y.1)

instance abbrev pair_key : {A B : Type 0} ⦃e : Eq A⦄ ⦃f : Eq B⦄ → Eq (A × B)
pair_key ⦃e⦄ ⦃f⦄ = record { beq = λ x y. e.beq x.0 y.0 && f.beq x.1 y.1; beq_iff = pair-beq_iff }

same_triple :
    (x y : Text × ℕ × Text)
    → ((text_beq x.0 y.0 && x.1 == y.1 && text_beq x.2 y.2) ≡ true) ↔ (x ≡ y)
same_triple x y = ground (arith, text_beq_iff x.0 y.0, text_beq_iff x.2 y.2)

instance abbrev triple_key : Eq (Text × ℕ × Text)
triple_key = record {
  beq = λ x y. text_beq x.0 y.0 && x.1 == y.1 && text_beq x.2 y.2;
  beq_iff = same_triple;
}

-- The rows of a table are one part of the database.
record Lens (M D : Type 0) : Type 0 where
  pub view : D → M
  pub put : M → D → D
  pub view-put : (m : M) (d : D) → view (put m d) ≡ m

module _ {K R D : Type 0} ⦃e : Eq K⦄ (key : R → K) (keep : R → R) (l : Lens (Map K R) D) where
  abbrev stored : Conflict R → R → Option R → R
  stored c r none = keep r
  stored c r (some old) = keep (merged c old r)

  abbrev answer : Option R → Found R
  answer none = not_found
  answer (some r) = row r

  abbrev values : (R → Bool) → Map K R → List R
  values q [] = []
  values q ((k, r) ∷ m) = let rest = values q m in if q r then r ∷ rest else rest

  abbrev table : Table K R D
  table = record {
    create = λ c r d.
        (none, l.put (insert (key r) (stored c r (lookup (key r) (l.view d))) (l.view d)) d);
    first = λ k d. answer (lookup k (l.view d));
    find = λ q d. some (values q (l.view d));
  }

  stored_new :
      (c : Conflict R) (r : R) (o : Option R) → answer o ≡ not_found → stored c r o ≡ keep r
  stored_new c r none h = refl
  stored_new c r (some old) h = cc

  stored_old :
      (c : Conflict R) (r old : R) (o : Option R)
      → answer o ≡ row old
      → stored c r o ≡ keep (merged c old r)
  stored_old c r old none h = cc
  stored_old c r old (some o) h =
      let same : o ≡ old = ground (arith, h) in ap (λ (x : R). keep (merged c x r)) same

  abbrev filed : K → R → D → D
  filed k v d = l.put (insert k v (l.view d)) d

  lookup-filed :
      (k j : K) (v : R) (d : D)
      → lookup j (l.view (filed k v d)) ≡ (if e.beq k j then some v else lookup j (l.view d))
  lookup-filed k j v d = rw (l.view-put (insert k v (l.view d)) d) (lookup-insert k j v (l.view d))

  lookup-filed_self : (k : K) (v : R) (d : D) → lookup k (l.view (filed k v d)) ≡ some v
  lookup-filed_self k v d = lookup-filed k k v d ∙ rw (beq_refl k) refl

  lookup-filed_ne :
      (k j : K) (v : R) (d : D) → k ≢ j → lookup j (l.view (filed k v d)) ≡ lookup j (l.view d)
  lookup-filed_ne k j v d ne = elim (Bool-cases (e.beq k j)) [
    | inl hit ↦ absurd (ne ((e.beq_iff k j).0 hit))
    | inr miss ↦ lookup-filed k j v d ∙ rw miss refl
  ]

  table-IsTable : IsTable key keep table
  table-IsTable = record {
    creates = λ c r d ok new.
        ap answer (lookup-filed_self (key r) (stored c r (lookup (key r) (l.view d))) d)
        ∙ ap row (stored_new c r (lookup (key r) (l.view d)) new);
    merges = λ c r old d ok h.
        ap answer (lookup-filed_self (key r) (stored c r (lookup (key r) (l.view d))) d)
        ∙ ap row (stored_old c r old (lookup (key r) (l.view d)) h);
    others = λ c r k d ne.
        ap answer (lookup-filed_ne (key r) k (stored c r (lookup (key r) (l.view d))) d ne);
  }

record ToyDb : Type 0 where
  pub submission_rows : Map (Text × Time) Submission
  pub job_rows : Map ℕ JobHistory
  pub user_rows : Map Text UserState
  pub nonce_rows : Map (Text × ℕ × Text) UsedNonce

abbrev submission_part : Lens (Map (Text × Time) Submission) ToyDb
submission_part = record {
  view = λ d. d.submission_rows;
  put = λ m d. record d { submission_rows = m };
  view-put = λ m d. refl;
}

abbrev job_part : Lens (Map ℕ JobHistory) ToyDb
job_part = record {
  view = λ d. d.job_rows;
  put = λ m d. record d { job_rows = m };
  view-put = λ m d. refl;
}

abbrev user_part : Lens (Map Text UserState) ToyDb
user_part = record {
  view = λ d. d.user_rows;
  put = λ m d. record d { user_rows = m };
  view-put = λ m d. refl;
}

abbrev nonce_part : Lens (Map (Text × ℕ × Text) UsedNonce) ToyDb
nonce_part = record {
  view = λ d. d.nonce_rows;
  put = λ m d. record d { nonce_rows = m };
  view-put = λ m d. refl;
}

-- Half a microsecond and more is rounded up.
abbrev to_micros : Time → Time
to_micros t = (t + 500) / 1000 * 1000

abbrev toy_db : Database ToyDb
toy_db = record {
  auto_migrate = λ m d. (none, d);
  submissions = table submission_key (λ r. r) submission_part;
  jobs = table (λ (j : JobHistory). j.job_id) (λ r. r) job_part;
  users = table (λ (u : UserState). u.username) (kept_user to_micros) user_part;
  nonces = table nonce_key (λ r. r) nonce_part;
  last_job = λ d. not_found;
  top = λ q limit d. none;
  sum = λ q d. none;
  close = λ d. (none, d);
}

abbrev empty_db : ToyDb
empty_db = record { submission_rows = []; job_rows = []; user_rows = []; nonce_rows = [] }

toy_db-IsStateDatabase : IsStateDatabase toy_db to_micros
toy_db-IsStateDatabase = record {
  users = table-IsTable (λ (u : UserState). u.username) (kept_user to_micros) user_part;
  nonces = table-IsTable nonce_key (λ r. r) nonce_part;
  users_apart = λ c r k d. refl;
  nonces_apart = λ c r k d. refl;
  users_ready = λ c r d ready m. refl;
  nonces_ready = λ c r d ready m. refl;
}

abbrev added_three : ToyDb
added_three =
    let once = (increment toy_db (codes "admin") 60000000001 empty_db).1 in
    let twice = (increment toy_db (codes "admin") 119000000000 once).1 in
    (increment toy_db (codes "admin") 61000000000 twice).1

abbrev saves : List Save
saves =
    user_saved (codes "admin") 2 (codes "abcd") 10
    ∷ nonce_saved (codes "admin") 2 (codes "a")
    ∷ user_saved (codes "admin") 3 (codes "ef") 20700
    ∷ []

abbrev saved_db : ToyDb
saved_db =
    let one = (save_user_state toy_db (codes "admin") 2 (codes "abcd") 10 empty_db).1 in
    let two = (save_used_nonce toy_db (codes "admin") 2 (codes "a") one).1 in
    (save_user_state toy_db (codes "admin") 3 (codes "ef") 20700 two).1

save_three : pg_saves toy_db to_micros saves empty_db ≡ some saved_db
unfolding pg_saves save_user_state save_used_nonce
save_three = refl

pg_saves-mem_saves_example :
    load_user_state toy_db (codes "admin") saved_db
    ≡ Memory.load_user_state (codes "admin") (mem_saves to_micros saves new_memory_store)
unfolding lookup
pg_saves-mem_saves_example =
    (pg_saves-mem_saves toy_db to_micros toy_db-IsStateDatabase saves empty_db saved_db
      (codes "admin") 2 (codes "a") (λ m. refl) (λ u. refl) (λ u j n. refl) save_three).0
