-- ===== src/Memory/States.antt =====
-- stats/memory.go: what is loaded of the users' states and the used nonces after a save.
use kupool.Common.{
  ◌==◌, if◌then◌else◌, Text, text_beq, text_beq_iff, nat_key, text_key, contains, lookup, insert,
  lookup-insert, Time, ℕ, ◌≡◌, refl, true, ◌&&◌, some, [], ◌∷◌, arith,
}
use kupool.Memory.{
  MemoryStore, UserState, or_zero, load_user_state, save_user_state, save_used_nonce,
  has_used_nonce,
}

pub load-save_user_state :
    (u v : Text) (j : ℕ) (n : Text) (at : Time) (s : MemoryStore)
    → load_user_state v (save_user_state u j n at s).1 ≡ (
        if text_beq u v
        then some (record { job_id = j; nonce = n; at = at })
        else load_user_state v s)
unfolding load_user_state save_user_state
load-save_user_state u v j n at s =
    let st : UserState = record { latest_job_id = j; latest_nonce = n; last_submit = at } in
    ground (arith, lookup-insert u v st s.user_states)

pub has-save_user_state :
    (u v : Text) (j k : ℕ) (n m : Text) (at : Time) (s : MemoryStore)
    → has_used_nonce v k m (save_user_state u j n at s).1 ≡ has_used_nonce v k m s
unfolding has_used_nonce save_user_state
has-save_user_state u v j k n m at s = refl

pub load-save_used_nonce :
    (u v : Text) (j : ℕ) (n : Text) (s : MemoryStore)
    → load_user_state v (save_used_nonce u j n s).1 ≡ load_user_state v s
unfolding load_user_state save_used_nonce
load-save_used_nonce u v j n s = refl

pub has-save_used_nonce :
    (u v : Text) (j k : ℕ) (n m : Text) (s : MemoryStore)
    → has_used_nonce v k m (save_used_nonce u j n s).1
      ≡ (if text_beq u v && j == k && text_beq n m then some true else has_used_nonce v k m s)
unfolding has_used_nonce save_used_nonce contains
has-save_used_nonce u v j k n m s =
    let used = or_zero [] (lookup u s.used) in
    let set = or_zero [] (lookup j used) in
    ground (
      arith,
      text_beq_iff u v,
      lookup-insert u v (insert j (n ∷ set) used) s.used,
      lookup-insert j k (n ∷ set) used,
    )
