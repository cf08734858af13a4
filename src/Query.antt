-- ===== src/Query.antt =====
-- src/tsdb_query.c: range queries that walk the ring from the oldest record on.
pub mod Window
pub mod Seek
pub mod Rounds
pub mod Walk
pub mod Answers
use esp_tsdb.Prelude.{
  length, ℕ, zero, suc, ◌+◌, ◌-◌, ◌*◌, ◌/◌, ◌%◌, Bool, true, false, not, ◌&&◌, ◌||◌, ltb, leb, ◌==◌,
  if◌then◌else◌, Option, none, some, List, [], ◌∷◌,
}
use esp_tsdb.Bytes.{Mem, zeros, get16}
use esp_tsdb.Format.{
  Header, EspErr, esp_ok, esp_fail, u32, err_invalid_arg, err_invalid_state, err_not_found,
  err_no_mem, add32, max_params, block_size, block_ts, block_param,
}
use esp_tsdb.Storage.{read_item}
use esp_tsdb.Buffer.{get_buffer_ptr}
use esp_tsdb.Handle.{Handle, Locked, held, refused, lock_open}
use esp_tsdb.Write.{Values, read_block}

-- tsdb_query_t. Its `db` and `file` are the handle that the operations get, and `block_buffer` is
-- memory of its own.
pub record Query : Type 0 where
  pub header : Header
  pub start_time : ℕ
  pub end_time : ℕ
  pub param_indices : ℕ → ℕ
  pub num_params_to_fetch : ℕ
  pub current_record_idx : ℕ
  pub end_record_idx : ℕ
  pub records_scanned : ℕ
  pub current_block_num : ℕ
  pub offset_in_block : ℕ
  pub block_buffer : Mem
  pub block_loaded : Bool
  pub owns_buffer : Bool

-- The number of records to scan, and the slot of the oldest.
unfoldable pub available_records : Header → ℕ
available_records h =
    if h.max_records == 0
    then h.total_records
    else if ltb h.total_records h.max_records
    then h.total_records
    else h.max_records

unfoldable pub first_slot : Header → ℕ
first_slot h = if h.max_records == 0 then 0 else h.oldest_record_idx

-- The slot of logical position `k`.
unfoldable pub slot_at : Header → (first k : ℕ) → ℕ
slot_at h first k = if h.max_records == 0 then k else add32 first k % h.max_records

-- What a probe of tsdb_seek_start finds: an anomaly, a record before start_time, or a later one.
pub data Probe : Type 0 where
  anomaly : Probe
  before : Probe
  reached : Probe

unfoldable pub classify_probe : (ts start_time : ℕ) → Probe
classify_probe ts start_time =
    if ts == 0 then anomaly else if ltb ts start_time then before else reached

unfoldable pub probe : Handle → Header → (start_time slot : ℕ) → Probe
probe db h start_time slot = elim (read_block db (slot / h.records_per_block)) [
  | none ↦ anomaly
  | some blk ↦ classify_probe (block_ts blk (slot % h.records_per_block)) start_time
]

-- tsdb_seek_start from `lo` and `hi` on, on fuel. `none` is fuel that ran out.
unfoldable pub seek_loop : (fuel : ℕ) → Handle → Header → (start_time first lo hi : ℕ) → Option ℕ
seek_loop zero db h start_time first lo hi = none
seek_loop (suc fuel) db h start_time first lo hi =
    let mid = lo + (hi - lo) / 2 in
    elim (ltb lo hi) [
      | false ↦ some lo
      | true ↦ elim (probe db h start_time (slot_at h first mid)) [
        | anomaly ↦ some 0
        | before ↦ seek_loop fuel db h start_time first (mid + 1) hi
        | reached ↦ seek_loop fuel db h start_time first lo mid
      ]
    ]

unfoldable pub seek_start : Handle → Header → (start_time available first : ℕ) → Option ℕ
seek_start db h start_time available first =
    seek_loop (available + 1) db h start_time first 0 available

-- The cursor on slot `slot`, `k` slots after the oldest.
unfoldable pub place : Query → (k slot : ℕ) → Query
place q k slot =
    let rpb = q.header.records_per_block in
    record q {
      current_record_idx = slot;
      records_scanned = k;
      current_block_num = if rpb == 0 then 0 else slot / rpb;
      offset_in_block = if rpb == 0 then 0 else slot % rpb;
    }

-- The query after memset, with its header, its range and its parameters.
unfoldable pub blank_query :
    Handle → (start_time end_time : ℕ) → (ℕ → ℕ) → (n : ℕ) → (owns : Bool) → Query
blank_query db start_time end_time params n owns = record {
  header = db.header;
  start_time = start_time;
  end_time = end_time;
  param_indices = params;
  num_params_to_fetch = n;
  current_record_idx = 0;
  end_record_idx = available_records db.header;
  records_scanned = 0;
  current_block_num = 0;
  offset_in_block = 0;
  block_buffer = zeros;
  block_loaded = false;
  owns_buffer = owns;
}

-- The query with its cursor on the oldest record.
unfoldable pub fresh_query :
    Handle → (start_time end_time : ℕ) → (ℕ → ℕ) → (n : ℕ) → (owns : Bool) → Query
fresh_query db start_time end_time params n owns =
    place (blank_query db start_time end_time params n owns) 0 (first_slot db.header)

-- The start seek of tsdb_query_init_h.
unfoldable pub seek_query : Handle → Query → Query
seek_query db q =
    let h = q.header in
    if ltb 0 q.end_record_idx && ltb 0 h.records_per_block && ltb h.oldest_timestamp q.start_time
    then elim (seek_start db h q.start_time q.end_record_idx (first_slot h)) [
      | none ↦ q
      | some k ↦ if ltb 0 k then place q k (slot_at h (first_slot h) k) else q
    ]
    else q

-- What tsdb_query_init_h ends with: a query, the lock held, or an error.
pub data Init : Type 0 where
  opened : Handle → Query → Init
  rejected : EspErr → Handle → Init

-- With no list of parameters all are fetched, their number a uint8_t.
unfoldable pub params_of : Handle → Option (ℕ → ℕ) → (n : ℕ) → (ℕ → ℕ) × ℕ
params_of db none n =
    let total = (db.header.num_params + db.extra_param_count) % 256 in
    (λ i. if ltb i total then i else 0, total)
params_of db (some params) n = (λ i. if ltb i n then params i else 0, n)

unfoldable pub too_many : Option (ℕ → ℕ) → (n : ℕ) → Bool
too_many none n = false
too_many (some params) n = ltb max_params n

-- Under the lock. `malloc_ok` is whether heap_caps_malloc has a block's memory.
unfoldable pub init_locked :
    Handle → (start_time end_time : ℕ) → Option (ℕ → ℕ) → (n : ℕ) → (malloc_ok : Bool) → Init
init_locked db start_time end_time params n malloc_ok =
    let (indices, count) = params_of db params n in
    if ltb end_time start_time || too_many params n
    then rejected err_invalid_arg db
    else elim (get_buffer_ptr db.pool db.query_buffer_offset block_size) [
      | some ptr ↦
          opened db (seek_query db (fresh_query db start_time end_time indices count false))
      | none ↦
          if malloc_ok
          then opened db (seek_query db (fresh_query db start_time end_time indices count true))
          else rejected err_no_mem db
    ]

-- tsdb_query_init_h, for a handle and a query that are not NULL; `got` is what the lock gives.
unfoldable pub query_init_h :
    (seen : Handle) (got : Option Handle) (start_time end_time : ℕ)
    → Option (ℕ → ℕ)
    → (n : ℕ) (malloc_ok : Bool) → Init
query_init_h seen got start_time end_time params n malloc_ok =
    if not seen.is_open || seen.migrating || seen.closing
    then rejected err_invalid_state seen
    else elim (lock_open seen got) [
      | refused e db ↦ rejected e db
      | held db ↦ init_locked db start_time end_time params n malloc_ok
    ]

-- `if (!query->block_loaded)`: `none` is a block that cannot be read.
unfoldable pub load_current : Handle → Query → Option Query
load_current db q = if q.block_loaded then some q else elim (read_block db q.current_block_num) [
  | none ↦ none
  | some blk ↦ some (record q { block_buffer = blk; block_loaded = true })
]

-- The cursor on the next slot; another block has to be loaded.
unfoldable pub advance : Query → Query
advance q =
    let h = q.header in
    let rpb = h.records_per_block in
    let up = add32 q.current_record_idx 1 in
    let next_slot = if h.max_records == 0 then up else up % h.max_records in
    let next_block = if rpb == 0 then 0 else next_slot / rpb in
    let q' = place q (add32 q.records_scanned 1) next_slot in
    record q' { block_loaded = q.block_loaded && (next_block == q.current_block_num) }

-- One value of the record that `q` is on: a base column, an extra column, or 0.
unfoldable pub column : Handle → Query → (param_idx : ℕ) → ℕ
column db q param_idx =
    let h = q.header in
    let abs_record_idx = h.total_records - q.end_record_idx + q.records_scanned in
    let overflow_idx = abs_record_idx - db.first_overflow_record_idx in
    let extra_idx = param_idx - h.num_params in
    let off =
      add32 db.overflow_data_offset (overflow_idx * db.overflow_record_size + extra_idx * 2) in
    if ltb param_idx h.num_params
    then block_param q.block_buffer h.records_per_block param_idx q.offset_in_block
    else if ltb 0 db.extra_param_count
        && ltb param_idx (h.num_params + db.extra_param_count)
        && leb db.first_overflow_record_idx abs_record_idx
    then elim (read_item db.file off 2) [ none ↦ 0 | some m ↦ get16 m 0 ]
    else 0

-- What a record is to the query.
pub data Verdict : Type 0 where
  skip : Verdict
  beyond : Verdict
  hit : Verdict

unfoldable pub verdict : (ts start_time end_time : ℕ) → Verdict
verdict ts start_time end_time =
    if ts == 0
    then skip
    else if ltb end_time ts
    then beyond
    else if ltb ts start_time
    then skip
    else hit

-- What tsdb_query_next gives: ESP_OK with a timestamp and values (`values[i]` for `i` below
-- num_params_to_fetch), or ESP_ERR_NOT_FOUND.
pub data Fetched : Type 0 where
  found : (ts : ℕ) → Values → Fetched
  ended : Fetched

-- The loop of tsdb_query_next over the `n` slots that are left.
unfoldable pub next_loop : (n : ℕ) → Handle → Query → Fetched × Query
next_loop zero db q = (ended, q)
next_loop (suc n) db q = elim (load_current db q) [
  | none ↦ (ended, q)
  | some q' ↦
      let ts = block_ts q'.block_buffer q'.offset_in_block in
      elim (verdict ts q.start_time q.end_time) [
        | skip ↦ next_loop n db (advance q')
        | beyond ↦ (ended, advance q')
        | hit ↦ (found ts (λ i. column db q' (q'.param_indices i)), advance q')
      ]
]

-- tsdb_query_next
unfoldable pub query_next : Handle → Query → Fetched × Query
query_next db q = next_loop (q.end_record_idx - q.records_scanned) db q

-- while (tsdb_query_next(...) == ESP_OK), on fuel: what the calls give. `none` is fuel that ran out.
unfoldable pub drain : (fuel : ℕ) → Handle → Query → Option (List (ℕ × Values))
drain zero db q = none
drain (suc fuel) db q =
    let (r, q') = query_next db q in
    elim r [
      | ended ↦ some []
      | found ts vals ↦ elim (drain fuel db q') [
        | none ↦ none
        | some rest ↦ some ((ts, vals) ∷ rest)
      ]
    ]

-- Each call that returns a record has scanned one slot.
unfoldable pub drain_all : Handle → Query → Option (List (ℕ × Values))
drain_all db q = drain (q.end_record_idx + 1) db q

-- tsdb_query_count_h: the status, and `*count`, a uint32_t.
unfoldable pub query_count_h :
    (seen : Handle) (got : Option Handle) (start_time end_time : ℕ) (malloc_ok : Bool) → EspErr × ℕ
query_count_h seen got start_time end_time malloc_ok =
    elim (query_init_h seen got start_time end_time none 0 malloc_ok) [
      | rejected e db ↦ (e, 0)
      | opened db q ↦ elim (drain_all db q) [
        | none ↦ (esp_fail, 0)
        | some records ↦ (esp_ok, length records % u32)
      ]
    ]
