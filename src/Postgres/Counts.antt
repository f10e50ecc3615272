-- ===== src/Postgres/Counts.antt =====
-- stats/pg.go, Increment and Get: what becomes of the count of a minute.
use kupool.Common.{Text, Time, ℕ, zero, suc, ◌≡◌, Option, none, some, List, [], ◌∷◌}
use kupool.Postgres.{Submission, row, Database, increment}

-- What `n` stored submissions come to.
unfoldable pub capped : ℕ → ℕ
capped zero = 0
capped (suc zero) = 1
capped (suc (suc n)) = 2

module _ {D : Type 0} (db : Database D) where
  -- Calls of `Increment` for a user, as long as they succeed; `none` when one fails.
  unfoldable pub add_all : Text → List Time → D → Option D
  add_all u [] d = some d
  add_all u (t ∷ ts) d =
      let rest = add_all u ts (increment db u t d).1 in
      elim (increment db u t d).0 [ none ↦ rest | some e ↦ none ]

  abbrev HasCount : Text × Time → ℕ → D → Type 0
  HasCount k n d = (r : Submission) × (db.submissions.first k d ≡ row r) × (r.submission_count ≡ n)
