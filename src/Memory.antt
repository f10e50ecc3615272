-- ===== src/Memory.antt =====
-- stats/memory.go: the store of the memory back end, for the statistics and for the state.
pub mod Counts
pub mod Recovery
pub mod States
use kupool.Common.{
  ltb, leb, ◌==◌, if◌then◌else◌, ltb→lt, lt→ltb, leb→le, le→leb, ==_iff, Bool-cases, Option-cases,
  length, take, drop, All, length-append, take-append, drop-append, length-take_le,
  take-append-drop, All-append, length-map, take-map, Eq, Text, text_beq, text_beq_iff, nat_key,
  text_key, beq_refl, contains, contains-cons_self, contains-cons, Map, lookup, insert, delete,
  lookup-insert, lookup-delete, lookup-insert_self, lookup-delete_self, lookup-insert_ne, update,
  Bytes, IsByte, codes, hex_encode, length-hex_encode, IsAscii, hex_encode-IsAscii, equal_fold,
  equal_fold_refl, put_word, word_of, length-put_word, word_of-put_word, put_word-IsByte,
  word_of-lt, put_word-word_of, ℤ, pos, negsuc, Time, Duration, second, minute, max_duration,
  time_sub, ltb_duration, truncate_minute, Stamp, local, truncate_stamp, stamp_beq, stamp_beq_iff,
  stamp_key, time_sub-lt, ℕ, zero, suc, ◌+◌, ◌-◌, ◌*◌, ◌/◌, ◌%◌, ◌^◌, ◌≤◌, ◌<◌, ◌≡◌, refl, sym, ap,
  ◌∙◌, ◌≢◌, ◌↔◌, ◌⊎◌, inl, inr, Bool, true, false, not, ◌&&◌, ◌||◌, Option, none, some, List, [],
  ◌∷◌, ◌++◌, map, arith,
}
use kupool.State.{GoError, JobRecord, SavedJob, StateStore, StatsStore}

pub record UserState : Type 0 where
  pub latest_job_id : ℕ
  pub latest_nonce : Text
  pub last_submit : Time

pub record MemoryStore : Type 0 where
  pub counts : Map Text (Map Stamp ℕ)
  pub job_hist : Map ℕ JobRecord
  pub latest_job_id : ℕ
  pub latest_nonce : Text
  pub user_states : Map Text UserState
  pub used : Map Text (Map ℕ (List Text))

unfoldable pub new_memory_store : MemoryStore
new_memory_store = record {
  counts = [];
  job_hist = [];
  latest_job_id = 0;
  latest_nonce = [];
  user_states = [];
  used = [];
}

-- `m[k]` where a missing key reads as the zero value.
abbrev pub or_zero {ℓ} : {A : Type ℓ} → A → Option A → A
or_zero z none = z
or_zero z (some a) = a

unfoldable pub increment : Text → Stamp → MemoryStore → GoError × MemoryStore
increment username time s =
    let m : Stamp = truncate_stamp time in
    let u : Map Stamp ℕ = or_zero [] (lookup username s.counts) in
    let n : ℕ = or_zero 0 (lookup m u) in
    (none, record s { counts = insert username (insert m ((n + 1) % 2 ^ 64) u) s.counts })

unfoldable pub get : Text → Stamp → MemoryStore → Option ℕ
get username time s = elim (lookup username s.counts) [
  | none ↦ some 0
  | some u ↦ some (or_zero 0 (lookup (truncate_stamp time) u))
]

unfoldable pub close : MemoryStore → GoError × MemoryStore
close s = (none, s)

unfoldable pub save_job : ℕ → Text → Time → MemoryStore → GoError × MemoryStore
save_job job_id nonce created_at s = (
  none,
  record s {
    latest_job_id = job_id;
    latest_nonce = nonce;
    job_hist = insert job_id (record { nonce = nonce; created_at = created_at }) s.job_hist;
  },
)

unfoldable pub load_latest_job : MemoryStore → Option SavedJob
load_latest_job s =
    let zero_record : JobRecord = record { nonce = []; created_at = 0 } in
    let rec = or_zero zero_record (lookup s.latest_job_id s.job_hist) in
    some (record { job_id = s.latest_job_id; nonce = rec.nonce; at = rec.created_at })

-- `since == 0 || rec.CreatedAt.After(time.Now().Add(-since))`.
abbrev pub in_window : Duration → Time → JobRecord → Bool
in_window (pos d) now rec = d == 0 || ltb now (rec.created_at + d)
in_window (negsuc d) now rec = ltb (now + d + 1) rec.created_at

unfoldable pub keep_window : Duration → Time → Map ℕ JobRecord → Map ℕ JobRecord
keep_window since now [] = []
keep_window since now ((id, rec) ∷ m) =
    let rest = keep_window since now m in if in_window since now rec then (id, rec) ∷ rest else rest

unfoldable pub load_job_history : Duration → Time → MemoryStore → Option (Map ℕ JobRecord)
load_job_history since now s = some (keep_window since now s.job_hist)

unfoldable pub load_user_state : Text → MemoryStore → Option SavedJob
load_user_state username s =
    let zero_state : UserState = record { latest_job_id = 0; latest_nonce = []; last_submit = 0 } in
    let st = or_zero zero_state (lookup username s.user_states) in
    some (record { job_id = st.latest_job_id; nonce = st.latest_nonce; at = st.last_submit })

unfoldable pub save_user_state : Text → ℕ → Text → Time → MemoryStore → GoError × MemoryStore
save_user_state username job nonce at s = (
  none,
  record s {
    user_states =
        insert username (record { latest_job_id = job; latest_nonce = nonce; last_submit = at })
          s.user_states;
  },
)

unfoldable pub save_used_nonce : Text → ℕ → Text → MemoryStore → GoError × MemoryStore
save_used_nonce username job nonce s =
    let u : Map ℕ (List Text) = or_zero [] (lookup username s.used) in
    let m : List Text = or_zero [] (lookup job u) in
    (none, record s { used = insert username (insert job (nonce ∷ m) u) s.used })

unfoldable pub has_used_nonce : Text → ℕ → Text → MemoryStore → Option Bool
has_used_nonce username job nonce s =
    let u : Map ℕ (List Text) = or_zero [] (lookup username s.used) in
    some (contains nonce (or_zero [] (lookup job u)))

-- The store serves both interfaces.
abbrev pub memory_state_store : StateStore MemoryStore
memory_state_store = record {
  save_job = save_job;
  load_latest_job = load_latest_job;
  load_job_history = load_job_history;
  load_user_state = load_user_state;
  save_user_state = save_user_state;
  save_used_nonce = save_used_nonce;
  has_used_nonce = has_used_nonce;
  close = close;
}

abbrev pub memory_stats_store : StatsStore MemoryStore
memory_stats_store = record { increment = increment; get = get; close = close }
