-- ===== src/Lifecycle.antt =====
-- Closing, syncing, clearing and deleting a database, and its statistics: src/tsdb_core.c.
pub mod Close
pub mod Clear
use esp_tsdb.Prelude.{
  ℕ, zero, suc, ◌+◌, ◌-◌, ◌*◌, Bool, true, false, not, ◌&&◌, ◌||◌, ltb, leb, ◌==◌, if◌then◌else◌,
  Option, none, some,
}
use esp_tsdb.Bytes.{zeros}
use esp_tsdb.Format.{
  Header, EspErr, esp_ok, esp_fail, err_invalid_arg, err_invalid_state, err_timeout,
}
use esp_tsdb.Storage.{File, empty_file, Outcome, done, cut, write_item}
use esp_tsdb.Buffer.{Heap, free_buffer_pool}
use esp_tsdb.Handle.{Handle, Locked, held, refused, lock_open}
use esp_tsdb.Fold.{FoldEnv, fold_header}

-- What tsdb_close_h leaves: its status, the handle, the heap, and whether the handle is retired.
pub record Closed : Type 0 where
  pub status : EspErr
  pub db : Handle
  pub heap : Heap
  pub retired : Bool

-- From tsdb_fold_header to the end, under the lock on an open handle.
unfoldable pub close_open : Handle → Heap → FoldEnv → Closed
close_open db hp env =
    let (e, db1) = fold_header (record db { cache_dirty = false }) env in
    let (pool, hp') = free_buffer_pool db1.pool hp in
    record {
      status = esp_ok;
      db = record db1 { file_open = false; pool = pool; is_open = false; closing = false };
      heap = hp';
      retired = true;
    }

-- tsdb_close_h on a handle that is not NULL. `got` is the handle once its mutex is taken; nothing
-- compares its generation.
unfoldable pub close_h : (seen : Handle) (got : Option Handle) → Heap → FoldEnv → Closed
close_h seen none hp env = record {
  status = err_timeout;
  db = record seen { closing = false };
  heap = hp;
  retired = false;
}
close_h seen (some db) hp env =
    if not db.is_open
    then record { status = esp_ok; db = record db { closing = false }; heap = hp; retired = true }
    else close_open db hp env

-- What fclose and fopen do in tsdb_sync_h.
pub record SyncEnv : Type 0 where
  pub fold : FoldEnv
  pub closes : Bool
  pub reopens : Bool

unfoldable pub sync_locked : Handle → SyncEnv → EspErr × Handle
sync_locked db env =
    let (e, folded) = fold_header db env.fold in
    let db1 = if db.in_file_header_stale || db.index_stale then folded else db in
    if env.closes && env.reopens
    then (esp_ok, db1)
    else (esp_fail, record db1 { file_open = false; is_open = false })

-- tsdb_sync_h
unfoldable pub sync_h : (seen : Handle) (got : Option Handle) → SyncEnv → EspErr × Handle
sync_h seen got env =
    if not seen.is_open || not seen.file_open
    then (err_invalid_state, seen)
    else elim (lock_open seen got) [ refused e db ↦ (e, db) | held db ↦ sync_locked db env ]

-- tsdb_stats_t; `storage_bytes` is the file's size if stat succeeds.
pub record Stats : Type 0 where
  pub total_records : ℕ
  pub max_records : ℕ
  pub oldest_timestamp : ℕ
  pub newest_timestamp : ℕ
  pub total_writes : ℕ
  pub total_evictions : ℕ
  pub num_params : ℕ
  pub extra_params : ℕ
  pub buffer_pool_size : ℕ
  pub using_paged_allocation : Bool
  pub storage_bytes : ℕ

unfoldable pub stats_of : Handle → (stat_ok : Bool) → Stats
stats_of db stat_ok =
    let h = db.header in
    record {
      total_records =
          if h.max_records == 0 || ltb h.total_records h.max_records
          then h.total_records
          else h.max_records;
      max_records = h.max_records;
      oldest_timestamp = h.oldest_timestamp;
      newest_timestamp = h.newest_timestamp;
      total_writes = h.total_writes;
      total_evictions = h.total_evictions;
      num_params = h.num_params;
      extra_params = db.extra_param_count;
      buffer_pool_size = db.pool.total_size;
      using_paged_allocation = db.pool.is_paged;
      storage_bytes = if stat_ok then db.file.size else 0;
    }

-- tsdb_get_stats_h: the status, and the statistics on ESP_OK.
unfoldable pub get_stats_h :
    (seen : Handle) (got : Option Handle) (stats_given stat_ok : Bool) → EspErr × Option Stats
get_stats_h seen got stats_given stat_ok =
    if not seen.is_open
    then (err_invalid_state, none)
    else if not stats_given
    then (err_invalid_arg, none)
    else elim (lock_open seen got) [
      | refused e db ↦ (e, none)
      | held db ↦ (esp_ok, some (stats_of db stat_ok))
    ]

-- The counters of an empty database.
unfoldable pub clear_counters : Header → Header
clear_counters h = record h {
  total_records = 0;
  oldest_record_idx = 0;
  newest_record_idx = 0;
  oldest_timestamp = 0;
  newest_timestamp = 0;
  total_writes = 0;
  total_evictions = 0;
  first_overflow_record_idx = if ltb 0 h.overflow_offset then 0 else h.first_overflow_record_idx;
}

-- How many of the 8 bytes an fwrite moves the file position by.
unfoldable pub moved : Outcome → ℕ
moved done = 8
moved (cut n e) = if ltb 8 n then 8 else n

-- The loop that writes `n` zero entries from position `pos` on.
unfoldable pub zero_entries : (n i pos : ℕ) → File → (ℕ → Outcome) → File
zero_entries zero i pos f env = f
zero_entries (suc n) i pos f env =
    zero_entries n (i + 1) (pos + moved (env i)) (write_item f pos 8 zeros (env i)) env

-- What the environment does during tsdb_clear_h.
pub record ClearEnv : Type 0 where
  pub entry : ℕ → Outcome
  pub fold : FoldEnv

unfoldable pub clear_locked : Handle → ClearEnv → Handle
clear_locked db env =
    let h = db.header in
    let db1 = record db {
      header = clear_counters h;
      first_overflow_record_idx =
          if ltb 0 h.overflow_offset then 0 else db.first_overflow_record_idx;
      file = zero_entries h.index_entries 0 h.index_offset db.file env.entry;
      index_stale = false;
    } in
    (fold_header db1 env.fold).1

-- tsdb_clear_h; the status of tsdb_fold_header is not looked at.
unfoldable pub clear_h : (seen : Handle) (got : Option Handle) → ClearEnv → EspErr × Handle
clear_h seen got env =
    if not seen.is_open then (err_invalid_state, seen) else elim (lock_open seen got) [
      | refused e db ↦ (e, db)
      | held db ↦ (esp_ok, clear_locked db env)
    ]

-- tsdb_delete_h: the close, and whether the file is still there; `unlinks` is what unlink gives.
unfoldable pub delete_h :
    (seen : Handle) (got : Option Handle) → Heap → FoldEnv → (unlinks : Bool) → Closed × Bool
delete_h seen got hp env unlinks =
    if not seen.is_open
    then (record { status = err_invalid_state; db = seen; heap = hp; retired = false }, true)
    else let c = close_h seen got hp env in
      elim c.status [
        | esp_ok ↦ if unlinks then (c, false) else (record c { status = esp_fail }, true)
        | e ↦ (c, true)
      ]
