-- ===== src/Write.antt =====
-- src/tsdb_write.c: block I/O, and tsdb_write_h with the ring, eviction, adaptive capacity and the
-- overflow region.
pub mod Entry
pub mod Sides
pub mod Passes
use esp_tsdb.Prelude.{
  ℕ, zero, suc, ◌+◌, ◌-◌, ◌*◌, ◌/◌, ◌%◌, ◌^◌, Bool, true, false, not, ◌&&◌, ◌||◌, ltb, leb, ◌==◌,
  if◌then◌else◌, Option, none, some, List, [], ◌∷◌,
}
use esp_tsdb.Bytes.{Mem, zeros, put16, from_offset}
use esp_tsdb.Format.{
  Header, EspErr, esp_ok, esp_fail, err_invalid_arg, err_invalid_state, err_not_found, err_no_mem,
  err_timeout, add32, u32, block_size, blkt, block_magic, block_count, block_ts, set_block_magic,
  set_block_count, set_block_ts, set_block_param, calc_block_offset,
}
use esp_tsdb.Storage.{File, Outcome, done, cut, is_done, read_item, write_item}
use esp_tsdb.Handle.{Handle, Locked, held, refused, lock_open}
use esp_tsdb.Header.{write_header}
use esp_tsdb.Sidecar.{SideEnv, sidecar_write}

-- The `int16_t` values of a record, each as its 16 bits.
abbrev pub Values : Type 0
Values = ℕ → ℕ

-- What the environment does during one tsdb_write_h: free_space_cb, each fwrite, the sidecar files.
-- `block n` is the block write when `n` more attempts are left.
pub record WriteEnv : Type 0 where
  pub free_now : ℕ
  pub guard_header : Outcome
  pub guard_header_again : Outcome
  pub block : ℕ → Outcome
  pub shrink_header : Outcome
  pub shrink_header_again : Outcome
  pub overflow : Outcome
  pub sidecar : SideEnv

-- tsdb_read_block: `none` is ESP_ERR_NOT_FOUND.
unfoldable pub read_block : Handle → ℕ → Option Mem
unfolding read_item calc_block_offset
read_block db block_num = read_item db.file (calc_block_offset db.header block_num) block_size

-- The status that tsdb_write_block makes of its fwrite.
unfoldable pub block_status : Outcome → EspErr
block_status done = esp_ok
block_status (cut n true) = err_no_mem
block_status (cut n false) = esp_fail

-- tsdb_write_block
unfoldable pub write_block : Handle → ℕ → Mem → Outcome → EspErr × Handle
unfolding write_item calc_block_offset block_status
write_block db block_num block o = (
  block_status o,
  record db {
    file = write_item db.file (calc_block_offset db.header block_num) block_size block o;
  },
)

-- tsdb_write_header, and once more if it fails.
unfoldable pub persist_header : Handle → (first second : Outcome) → Handle
unfolding write_header
persist_header db first second =
    let (e, f) = write_header db.file db.header first in
    let (e', f') = write_header f db.header second in
    record db { file = if is_done first then f else f' }

-- Cap `max_records` to what is written, and remember that this handle has shrunk.
unfoldable pub cap_capacity : Handle → Handle
cap_capacity db = record db {
  header = record (db.header) { max_records = db.header.total_records };
  capacity_adapted = true;
}

-- The free-space guard is consulted when the file is about to grow by a block.
unfoldable pub guard_applies : Handle → Bool
guard_applies db =
    let h = db.header in
    db.has_free_space_cb
    && ltb 0 db.min_free_bytes
    && not db.capacity_adapted
    && ltb 0 h.max_records
    && ltb 0 h.total_records
    && ltb h.total_records h.max_records
    && (h.total_records % h.records_per_block == 0)

unfoldable pub free_space_guard : Handle → WriteEnv → Handle
free_space_guard db env =
    if guard_applies db && ltb env.free_now db.min_free_bytes
    then persist_header (cap_capacity db) env.guard_header env.guard_header_again
    else db

-- Where the next record goes.
unfoldable pub record_idx : Header → ℕ
record_idx h = if h.max_records == 0 then h.total_records else h.total_records % h.max_records

unfoldable pub is_eviction : Header → Bool
is_eviction h = not (h.max_records == 0) && leb h.max_records h.total_records

unfoldable pub evict : Header → Header
evict h = record h {
  total_evictions = add32 h.total_evictions 1;
  oldest_record_idx = add32 h.oldest_record_idx 1 % h.max_records;
}

-- memset, magic, count 0.
unfoldable pub new_block : Mem
unfolding set_block_magic set_block_count
new_block = set_block_count (set_block_magic zeros blkt) 0

-- The block to write into: what the file has, or a new one.
unfoldable pub load_block : Handle → ℕ → Mem
unfolding read_block block_magic new_block
load_block db block_num = elim (read_block db block_num) [
  | none ↦ new_block
  | some blk ↦ if block_magic blk == blkt then blk else new_block
]

-- for (i = 0; i < num_params; i++) TSDB_BLOCK_PARAM(raw, rpb, i, off) = values[i], from `i` on.
unfoldable pub put_params : (n i rpb off : ℕ) → Values → Mem → Mem
unfolding set_block_param
put_params zero i rpb off values raw = raw
put_params (suc n) i rpb off values raw =
    put_params n (i + 1) rpb off values (set_block_param raw rpb i off (values i))

-- The record's cells and the count.
unfoldable pub fill_block : Header → (off timestamp : ℕ) → Values → Mem → Mem
unfolding put_params set_block_ts set_block_count block_count
fill_block h off timestamp values raw =
    let raw' =
      put_params h.num_params 0 h.records_per_block off values (set_block_ts raw off timestamp) in
    if leb (block_count raw') off then set_block_count raw' (off + 1) else raw'

-- One pass from the label `retry_write` to the check of the block write.
pub data Pass : Type 0 where
  again : Handle → Pass
  failed : EspErr → Handle → Pass
  stored : (was_eviction : Bool) → (idx : ℕ) → Handle → Pass

-- After the block write: adapt and retry, fail, or go on.
unfoldable pub after_block : (was_eviction : Bool) → (idx : ℕ) → EspErr → Handle → WriteEnv → Pass
unfolding cap_capacity persist_header
after_block ev idx esp_ok db env = stored ev idx db
after_block ev idx err_no_mem db env =
    if not ev && not db.capacity_adapted && ltb 0 db.header.total_records
    then again (persist_header (cap_capacity db) env.shrink_header env.shrink_header_again)
    else failed err_no_mem db
after_block ev idx e db env = failed e db

-- The record's slot is `idx`; `db` has evicted the oldest record if `ev` says so.
unfoldable pub store_record :
    (ev : Bool) → (idx : ℕ) → Handle → (timestamp : ℕ) → Values → WriteEnv → Outcome → Pass
unfolding load_block fill_block write_block after_block
store_record ev idx db timestamp values env o =
    let block_num = idx / db.header.records_per_block in
    let off = idx % db.header.records_per_block in
    let (e, db') =
      write_block db block_num (fill_block db.header off timestamp values (load_block db block_num))
        o in
    after_block ev idx e db' env

unfoldable pub evict_if_full : Handle → Handle
unfolding evict
evict_if_full db = if is_eviction db.header then record db { header = evict db.header } else db

unfoldable pub write_pass : Handle → (timestamp : ℕ) → Values → WriteEnv → Outcome → Pass
unfolding record_idx is_eviction evict_if_full store_record
write_pass db timestamp values env o =
    store_record (is_eviction db.header) (record_idx db.header) (evict_if_full db) timestamp values
      env o

-- `goto retry_write`, on fuel. `none` is fuel that ran out.
unfoldable pub write_passes : (fuel : ℕ) → Handle → ℕ → Values → WriteEnv → Option Pass
unfolding write_pass
write_passes zero db timestamp values env = none
write_passes (suc fuel) db timestamp values env =
    elim (write_pass db timestamp values env (env.block fuel)) [
      | again db' ↦ write_passes fuel db' timestamp values env
      | failed e db' ↦ some (failed e db')
      | stored ev idx db' ↦ some (stored ev idx db')
    ]

-- The bytes of an array of int16_t.
unfoldable pub values_bytes : Values → Mem
values_bytes v q = if q % 2 == 0 then v (q / 2) % 256 else v (q / 2) / 256 % 256

-- The record's extra columns, at the end of the overflow region. A failure is only logged.
unfoldable pub write_overflow : Handle → Values → Outcome → Handle
unfolding write_item values_bytes
write_overflow db values o =
    let idx = db.header.total_records - db.first_overflow_record_idx in
    let off = add32 db.overflow_data_offset (idx * db.overflow_record_size) in
    let extras = values_bytes (λ i. values (db.header.num_params + i)) in
    if ltb 0 db.extra_param_count && leb db.first_overflow_record_idx db.header.total_records
    then record db { file = write_item db.file off (db.extra_param_count * 2) extras o }
    else db

-- total_records++ to newest_timestamp.
unfoldable pub count_record : Header → (idx timestamp : ℕ) → Header
count_record h idx timestamp = record h {
  total_records = add32 h.total_records 1;
  total_writes = add32 h.total_writes 1;
  newest_record_idx = idx;
  newest_timestamp = timestamp;
}

-- The timestamp of the record that is now the oldest, if its block can be read.
unfoldable pub oldest_ts : Handle → ℕ
unfolding read_block block_ts
oldest_ts db =
    let h = db.header in
    elim (read_block db (h.oldest_record_idx / h.records_per_block)) [
      | none ↦ h.oldest_timestamp
      | some blk ↦ block_ts blk (h.oldest_record_idx % h.records_per_block)
    ]

unfoldable pub refresh_oldest : (was_eviction : Bool) → (timestamp : ℕ) → Handle → Handle
unfolding oldest_ts
refresh_oldest true timestamp db = record db {
  header = record (db.header) { oldest_timestamp = oldest_ts db };
}
refresh_oldest false timestamp db =
    if db.header.total_records == 1
    then record db { header = record (db.header) { oldest_timestamp = timestamp } }
    else db

-- A write that lands on an index slot leaves the sparse index stale.
unfoldable pub mark_index : (idx : ℕ) → Handle → Handle
mark_index idx db =
    let h = db.header in
    if (idx % h.index_stride == 0) && ltb (idx / h.index_stride) h.index_entries
    then record db { index_stale = true }
    else db

-- The header update, the oldest timestamp, the index mark and the sidecar; the status of the
-- sidecar is not looked at.
unfoldable pub commit_record :
    (was_eviction : Bool) → (idx timestamp : ℕ) → WriteEnv → Handle → Handle
commit_record ev idx timestamp env db =
    let db' = record db { header = count_record db.header idx timestamp } in
    let (e, db3) = sidecar_write (mark_index idx (refresh_oldest ev timestamp db')) env.sidecar in
    record db3 { in_file_header_stale = true }

-- From the overflow data to the end of tsdb_write_h.
unfoldable pub finish_write :
    (was_eviction : Bool) → (idx timestamp : ℕ) → Values → WriteEnv → Handle → Handle
finish_write ev idx timestamp values env db =
    commit_record ev idx timestamp env (write_overflow db values env.overflow)

-- Two passes: the second finds `capacity_adapted` set and cannot ask for a third.
abbrev pub write_fuel : ℕ
write_fuel = 2

-- tsdb_write_h under the lock.
unfoldable pub write_locked : Handle → (timestamp : ℕ) → Values → WriteEnv → EspErr × Handle
write_locked db timestamp values env =
    elim (write_passes write_fuel (free_space_guard db env) timestamp values env) [
      | none ↦ (esp_fail, db)
      | some (again db') ↦ (esp_fail, db')
      | some (failed e db') ↦ (e, db')
      | some (stored ev idx db') ↦ (esp_ok, finish_write ev idx timestamp values env db')
    ]

-- tsdb_write_h. `none` for a handle or for the values is NULL; `got` is what the lock gives.
unfoldable pub write_h :
    (seen : Handle) (got : Option Handle) (timestamp : ℕ)
    → Option Values
    → WriteEnv
    → EspErr × Handle
write_h seen got timestamp none env =
    (if seen.is_open then err_invalid_arg else err_invalid_state, seen)
write_h seen got timestamp (some values) env =
    if not seen.is_open
    then (err_invalid_state, seen)
    else if seen.migrating || seen.closing
    then (err_invalid_state, seen)
    else elim (lock_open seen got) [
      | refused e db ↦ (e, db)
      | held db ↦ write_locked db timestamp values env
    ]

-- What other tasks do around call number `i` of a batch: the handle that the call sees first, the
-- handle once its mutex is taken, and what the environment does during the call.
pub record BatchEnv : Type 0 where
  pub seen : ℕ → Handle → Handle
  pub got : ℕ → Handle → Option Handle
  pub call : ℕ → WriteEnv

-- The loop of tsdb_write_batch_h from record `i` on, with `n` to go. `none` is a NULL in `values`.
unfoldable pub write_batch_loop :
    (n i : ℕ)
    → (timestamps : ℕ → ℕ) → (values : ℕ → Option Values) → BatchEnv
    → Handle
    → EspErr × Handle
write_batch_loop zero i timestamps values env db = (esp_ok, db)
write_batch_loop (suc n) i timestamps values env db =
    let seen = env.seen i db in
    let (ret, db') = write_h seen (env.got i seen) (timestamps i) (values i) (env.call i) in
    elim ret [ esp_ok ↦ write_batch_loop n (i + 1) timestamps values env db' | e ↦ (e, db') ]

-- tsdb_write_batch_h. `none` for an array is NULL.
unfoldable pub write_batch_h :
    Handle
    → (timestamps : Option (ℕ → ℕ)) → (values : Option (ℕ → Option Values)) → (count : ℕ) → BatchEnv
    → EspErr × Handle
write_batch_h db (some timestamps) (some values) count env =
    if not db.is_open
    then (err_invalid_state, db)
    else if count == 0
    then (err_invalid_arg, db)
    else write_batch_loop count 0 timestamps values env db
write_batch_h db none values count env =
    (if db.is_open then err_invalid_arg else err_invalid_state, db)
write_batch_h db (some timestamps) none count env =
    (if db.is_open then err_invalid_arg else err_invalid_state, db)
