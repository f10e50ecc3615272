-- ===== src/Memory/Recovery.antt =====
-- stats/memory.go and app/server/coordinator.go: a restart over the same store.
use kupool.Common.{
  nat_key, text_key, lookup-insert_self, hex_encode, Time, ℕ, ◌^◌, ◌<◌, ◌≡◌, some, [], arith,
}
use kupool.Protocol.{Codec}
use kupool.State.{JobRecord, World, Coordinator}
use kupool.Coordinator.{Draw, next_id, rotate_job, restore}
use kupool.Memory.{MemoryStore, memory_state_store, save_job, load_latest_job, load_job_history}

-- Any coordinator that restores from the memory store that another one has just rotated a job into
-- holds that job's number and nonce and keeps its own sessions, if the number is positive as a
-- signed 64-bit integer.
pub restore-rotate_job :
    (codec : Codec) (d : Draw) (w : World MemoryStore) (s : MemoryStore) (c : Coordinator)
    (now : Time)
    → w.state ≡ some s
    → 0 < next_id w.coord.job_id
    → next_id w.coord.job_id < 2 ^ 63
    → let before = rotate_job memory_state_store codec d w in
      let after =
        restore memory_state_store codec now
          (record { coord = c; state = before.state; log = [] }) in
      (after.coord.job_id ≡ before.coord.job_id)
      × (after.coord.server_nonce ≡ before.coord.server_nonce)
      × (after.coord.sessions ≡ c.sessions)
unfolding rotate_job restore save_job load_latest_job load_job_history
restore-rotate_job codec d w s c now stored pos_id small =
    let id : ℕ = next_id w.coord.job_id in
    let rec : JobRecord = record { nonce = hex_encode d.buf; created_at = d.saved_at } in
    let saved = lookup-insert_self id rec s.job_hist in
    (ground (arith, saved), ground (arith, saved), ground (arith, saved))
