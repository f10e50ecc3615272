-- ===== src/Postgres/Agreement.antt =====
-- stats/pg.go against stats/memory.go: what both load of the users' states and the used nonces.
use kupool.Common.{
  ◌==◌, Bool-cases, Text, text_beq, text_beq_iff, nat_key, text_key, contains, lookup, Time, ℕ, ◌≡◌,
  refl, sym, ap, ◌∙◌, ◌≢◌, ◌↔◌, inl, inr, true, ◌&&◌, Option, none, some, List, [], ◌∷◌, arith,
}
use mathlib.Core.Bool.{false≢true}
use kupool.State.{GoError}
use kupool.Memory.{MemoryStore, new_memory_store}
use kupool.Memory
use kupool.Memory.States.{
  load-save_user_state, has-save_user_state, load-save_used_nonce, has-save_used_nonce,
}
use kupool.Postgres.{
  do_nothing, do_updates, not_found, Database, state_of, is_found, replace_state, save_user_state,
  load_user_state, save_used_nonce, has_used_nonce,
}
use kupool.Postgres.Laws.{
  IsReady, IsStateDatabase, user_of, nonce_of, save_user_state-ready, load_user_state-ready,
  saved_user, save_used_nonce-ready, has_used_nonce-ready, saved_nonce,
}

-- `SaveUserState` and `SaveUsedNonce`.
pub data Save : Type 0 where
  user_saved : Text → ℕ → Text → Time → Save
  nonce_saved : Text → ℕ → Text → Save

-- The same save on the memory store, with the time that the database keeps.
abbrev mem_save : (Time → Time) → Save → MemoryStore → MemoryStore
mem_save stored (user_saved u j n at) s = (Memory.save_user_state u j n (stored at) s).1
mem_save stored (nonce_saved u j n) s = (Memory.save_used_nonce u j n s).1

abbrev pub mem_saves : (Time → Time) → List Save → MemoryStore → MemoryStore
mem_saves stored [] s = s
mem_saves stored (x ∷ xs) s = mem_saves stored xs (mem_save stored x s)

same_nonce :
    (u v : Text) (j k : ℕ) (n m : Text)
    → ((text_beq u v && j == k && text_beq n m) ≡ true)
      ↔ (◌≡◌ {A = Text × ℕ × Text} (u, j, n) (v, k, m))
same_nonce u v j k n m = (
  λ h.
      let a : u ≡ v = ground (arith, text_beq_iff u v) in
      let b : j ≡ k = ground arith in
      let c : n ≡ m = ground (arith, text_beq_iff n m) in rw (a, b, c) refl,
  λ e.
      let a : u ≡ v = ap (λ x. x.0) e in
      let b : j ≡ k = ap (λ x. x.1) e in
      let c : n ≡ m = ap (λ x. x.2) e in ground (arith, text_beq_iff u v, text_beq_iff n m),
)

module _ {D : Type 0} (db : Database D) (stored : Time → Time) where
  abbrev pg_save : Save → D → GoError × D
  pg_save (user_saved u j n at) d = save_user_state db u j n at d
  pg_save (nonce_saved u j n) d = save_used_nonce db u j n d

  -- The saves in turn; `none` when one reports an error.
  unfoldable pub pg_saves : List Save → D → Option D
  pg_saves [] d = some d
  pg_saves (x ∷ xs) d =
      let rest = pg_saves xs (pg_save x d).1 in elim (pg_save x d).0 [ none ↦ rest | some e ↦ none ]

  record Agree (d : D) (s : MemoryStore) : Type 0 where
    pub ready : IsReady db stored d
    pub users : (v : Text) → state_of (db.users.first v d) ≡ Memory.load_user_state v s
    pub nonces :
        (v : Text) (k : ℕ) (m : Text)
        → is_found (db.nonces.first (v, k, m) d) ≡ Memory.has_used_nonce v k m s

  user_saved-users :
      (laws : IsStateDatabase db stored) (u v : Text) (j : ℕ) (n : Text) (at : Time) (d : D)
      (s : MemoryStore)
      → Agree d s
      → let r =
          db.users.create (do_updates (replace_state j n at)) (user_of db stored u j n at) d in
        r.0 ≡ none
        → state_of (db.users.first v r.1)
          ≡ Memory.load_user_state v (Memory.save_user_state u j n (stored at) s).1
  unfolding Memory.load_user_state
  user_saved-users laws u v j n at d s a saved = elim (Bool-cases (text_beq u v)) [
    | inl hit ↦
        let e : u ≡ v = (text_beq_iff u v).0 hit in
        rw (load-save_user_state u v j n (stored at) s, hit, ← e)
          (saved_user db stored laws u j n at d _ saved (a.users u))
    | inr miss ↦
        let ne : u ≢ v = λ e. false≢true (sym miss ∙ (text_beq_iff u v).1 e) in
        rw (load-save_user_state u v j n (stored at) s, miss)
          (ap state_of (laws.users.others _ _ v d ne) ∙ a.users v)
  ]

  nonce_saved-nonces :
      (laws : IsStateDatabase db stored) (u v : Text) (j k : ℕ) (n m : Text) (d : D)
      (s : MemoryStore)
      → Agree d s
      → let r = db.nonces.create do_nothing (nonce_of db stored u j n) d in
        r.0 ≡ none
        → is_found (db.nonces.first (v, k, m) r.1)
          ≡ Memory.has_used_nonce v k m (Memory.save_used_nonce u j n s).1
  unfolding Memory.has_used_nonce
  nonce_saved-nonces laws u v j k n m d s a saved =
      elim (Bool-cases (text_beq u v && j == k && text_beq n m)) [
        | inl hit ↦
            let e = (same_nonce u v j k n m).0 hit in
            rw (has-save_used_nonce u v j k n m s, hit, ← e)
              (saved_nonce db stored laws u j n d _ saved (a.nonces u j n))
        | inr miss ↦
            let ne : ¬ (◌≡◌ {A = Text × ℕ × Text} (u, j, n) (v, k, m)) =
              λ e. false≢true (sym miss ∙ (same_nonce u v j k n m).1 e) in
            rw (has-save_used_nonce u v j k n m s, miss)
              (ap is_found (laws.nonces.others _ _ (v, k, m) d ne) ∙ a.nonces v k m)
      ]

  save-Agree :
      (laws : IsStateDatabase db stored) (x : Save) (d : D) (s : MemoryStore)
      → Agree d s
      → (pg_save x d).0 ≡ none
      → Agree (pg_save x d).1 (mem_save stored x s)
  save-Agree laws (user_saved u j n at) d s a saved =
      let e = save_user_state-ready db stored u j n at d a.ready in
      let ok = rw e at saved in
      rw e (record {
        ready = laws.users_ready _ _ d a.ready;
        users = λ v. user_saved-users laws u v j n at d s a ok;
        nonces = λ v k m.
            ap is_found (laws.users_apart _ _ (v, k, m) d)
            ∙ a.nonces v k m
            ∙ sym (has-save_user_state u v j k n m (stored at) s);
      })
  save-Agree laws (nonce_saved u j n) d s a saved =
      let e = save_used_nonce-ready db stored u j n d a.ready in
      let ok = rw e at saved in
      rw e (record {
        ready = laws.nonces_ready _ _ d a.ready;
        users = λ v.
            ap state_of (laws.nonces_apart _ _ v d)
            ∙ a.users v
            ∙ sym (load-save_used_nonce u v j n s);
        nonces = λ v k m. nonce_saved-nonces laws u v j k n m d s a ok;
      })

  pg_saves-cons :
      (x : Save) (xs : List Save) (d d' : D)
      → pg_saves (x ∷ xs) d ≡ some d'
      → ((pg_save x d).0 ≡ none) × (pg_saves xs (pg_save x d).1 ≡ some d')
  unfolding pg_saves
  pg_saves-cons x xs d d' h = ground arith

  saves-Agree :
      (laws : IsStateDatabase db stored) (l : List Save) (d d' : D) (s : MemoryStore)
      → Agree d s
      → pg_saves l d ≡ some d'
      → Agree d' (mem_saves stored l s)
  unfolding pg_saves
  saves-Agree laws [] d d' s a h = let e : d ≡ d' = cc in rw (← e) a
  saves-Agree laws (x ∷ xs) d d' s a h =
      let (ok, rest) = pg_saves-cons x xs d d' h in
      saves-Agree laws xs (pg_save x d).1 d' (mem_save stored x s) (save-Agree laws x d s a ok) rest

  -- On a database with its tables, no user and no nonce, which keeps a time as `stored` of it, after
  -- any saves of users' states and used nonces none of which fails, the store loads every user's
  -- state and knows every nonce as the memory store does after the same saves with the stored times.
  pub pg_saves-mem_saves :
      (laws : IsStateDatabase db stored) (l : List Save) (d d' : D) (v : Text) (k : ℕ) (m : Text)
      → IsReady db stored d
      → ((u : Text) → db.users.first u d ≡ not_found)
      → ((u : Text) (j : ℕ) (n : Text) → db.nonces.first (u, j, n) d ≡ not_found)
      → pg_saves l d ≡ some d'
      → (load_user_state db v d' ≡ Memory.load_user_state v (mem_saves stored l new_memory_store))
        × (has_used_nonce db v k m d'
            ≡ Memory.has_used_nonce v k m (mem_saves stored l new_memory_store))
  unfolding new_memory_store Memory.load_user_state Memory.has_used_nonce lookup contains
  pg_saves-mem_saves laws l d d' v k m ready no_user no_nonce saved =
      let start : Agree d new_memory_store = record {
        ready = ready;
        users = λ u. rw (no_user u) refl;
        nonces = λ u j n. rw (no_nonce u j n) refl;
      } in
      let a = saves-Agree laws l d d' new_memory_store start saved in
      (
        load_user_state-ready db stored v d' a.ready ∙ a.users v,
        has_used_nonce-ready db stored v k m d' a.ready ∙ a.nonces v k m,
      )
