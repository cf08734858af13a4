-- ===== src/Engine/Build.antt =====
-- Sections 4 to 6 of tsdb_migrate_engine of src/tsdb_migrate.c: the copy into <db>.mig.
use esp_tsdb.Prelude.{
  ℕ, zero, suc, ◌+◌, ◌-◌, ◌*◌, ◌/◌, ◌%◌, Bool, false, not, ◌&&◌, ◌||◌, ltb, ◌==◌, if◌then◌else◌,
  Option, none, some,
}
use esp_tsdb.Bytes.{Mem, zeros}
use esp_tsdb.Format.{
  Header, EspErr, esp_ok, esp_fail, magic, u32, add32, version_v3, version_wide, block_size,
  header_size, v4_ext_names_offset, set_block_ts, set_block_count,
}
use esp_tsdb.Format.Codec.{encode, decode}
use esp_tsdb.Storage.{File, empty_file, Outcome, is_done, write_item}
use esp_tsdb.Handle.{Handle}
use esp_tsdb.Write.{Values, new_block, put_params, block_status}
use esp_tsdb.Query.{available_records}
use esp_tsdb.Fold.{entry_bytes}
use esp_tsdb.Names.{ext_name_len}
use esp_tsdb.Migrate.{Cache, migrate_read_record}
use esp_tsdb.Engine.{Plan}

-- strncpy(dst, src, len - 1), then a NUL at the end: byte `j` of it.
unfoldable pub has_nul : (n : ℕ) → Mem → Bool
has_nul zero src = false
has_nul (suc n) src = let rest = has_nul n src in src n == 0 || rest

unfoldable pub copy_name : (len : ℕ) → Option Mem → Mem
copy_name len none j = 0
copy_name len (some src) j = if ltb j (len - 1) && not (has_nul j src) then src j else 0

-- nh.param_names
unfoldable pub name_bytes : (count : ℕ) → (ℕ → Option Mem) → Mem
name_bytes count names q =
    let i = q / 32 in if ltb i count && ltb i 16 then copy_name 32 (names i) (q % 32) else 0

-- Section 4: the header before the copy.
unfoldable pub new_header : Header → Plan → (ℕ → Option Mem) → Header
new_header h p names = record (decode zeros) {
  magic_word = magic;
  version = if ltb 16 p.count then version_wide else version_v3;
  num_params = p.count;
  base_params = p.count;
  param_size = 2;
  record_size = 4 + p.count * 2;
  records_per_block = p.rpb;
  max_records = p.max;
  index_stride = h.index_stride;
  index_offset = p.index_offset;
  index_entries = p.index_entries;
  param_names = name_bytes p.count names;
}

-- The names from column `i` on, `n` of them, until a write fails.
unfoldable pub write_names : (n i : ℕ) → (ℕ → Option Mem) → (ℕ → Outcome) → File → EspErr × File
write_names zero i names env f = (esp_ok, f)
write_names (suc n) i names env f =
    let pos = v4_ext_names_offset + (i - 16) * ext_name_len in
    let f' = write_item f pos ext_name_len (copy_name ext_name_len (names i)) (env i) in
    let rest = write_names n (i + 1) names env f' in
    if is_done (env i) then rest else (esp_fail, f')

-- The zero entries from entry `i` on, `n` of them, until a write fails.
unfoldable pub write_entries : (n i index_offset : ℕ) → (ℕ → Outcome) → File → EspErr × File
write_entries zero i index_offset env f = (esp_ok, f)
write_entries (suc n) i index_offset env f =
    let f' = write_item f (index_offset + i * 8) 8 zeros (env i) in
    let rest = write_entries n (i + 1) index_offset env f' in
    if is_done (env i) then rest else (esp_fail, f')

-- What the environment does during the engine.
pub record EngineEnv : Type 0 where
  pub malloc_ok : Bool
  pub opens_mig : Bool
  pub first_header : Outcome
  pub name : ℕ → Outcome
  pub zero_entry : ℕ → Outcome
  pub index_entry : ℕ → Outcome
  pub block : ℕ → Outcome
  pub last_header : Outcome
  pub renames : Bool
  pub reopens : Bool

-- The header, the extended names and the zero index of the new file.
unfoldable pub start_file : Header → (ℕ → Option Mem) → EngineEnv → EspErr × File
start_file nh names env =
    let f0 = write_item empty_file 0 header_size (encode nh) env.first_header in
    let (e1, f1) = write_names (nh.num_params - 16) 16 names env.name f0 in
    let (e2, f2) = write_entries nh.index_entries 0 nh.index_offset env.zero_entry f1 in
    if not (is_done env.first_header)
    then (esp_fail, f0)
    else elim e1 [ esp_ok ↦ (e2, f2) | e ↦ (e, f1) ]

-- The state of the copy loop.
pub record Copy : Type 0 where
  pub out : File
  pub wr_blk : Mem
  pub cache : Cache
  pub header : Header
  pub out_written : ℕ

-- The new columns of a row.
unfoldable pub map_row : (ℕ → Option ℕ) → (old_total : ℕ) → Values → Values
map_row col_map old_total row i = elim (col_map i) [
  | none ↦ 0
  | some j ↦ if ltb j old_total then row j else 0
]

-- The index entry at a stride boundary. A failure is not looked at.
unfoldable pub put_entry : Header → (out_written ts : ℕ) → Outcome → File → File
put_entry nh out_written ts o f =
    let entry_num = out_written / nh.index_stride in
    if (out_written % nh.index_stride == 0) && ltb entry_num nh.index_entries
    then write_item f (add32 nh.index_offset (entry_num * 8)) 8
        (entry_bytes ts (out_written / nh.records_per_block)) o
    else f

-- nh.oldest_timestamp and nh.newest_timestamp.
unfoldable pub stamp_header : Header → (out_written ts : ℕ) → Header
stamp_header nh out_written ts = record nh {
  oldest_timestamp = if out_written == 0 then ts else nh.oldest_timestamp;
  newest_timestamp = ts;
}

-- The row goes into the block being filled, its entry into the index.
unfoldable pub place_row : Copy → (ts : ℕ) → Values → Cache → Outcome → Copy
place_row c ts values cache o =
    let nh = c.header in
    let off = c.out_written % nh.records_per_block in
    record {
      out = put_entry nh c.out_written ts o c.out;
      wr_blk =
          set_block_count
            (put_params nh.num_params 0 nh.records_per_block off values
              (set_block_ts c.wr_blk off ts))
            (off + 1);
      cache = cache;
      header = stamp_header nh c.out_written ts;
      out_written = c.out_written + 1;
    }

-- fwrite of the block, and memset for the next one.
unfoldable pub flush_block : Copy → Outcome → EspErr × Copy
flush_block c o =
    let nh = c.header in
    let pos =
      add32 (nh.index_offset + nh.index_entries * 8)
        ((c.out_written - 1) / nh.records_per_block * block_size) in
    let out = write_item c.out pos block_size c.wr_blk o in
    elim (block_status o) [
      | esp_ok ↦ (esp_ok, record c { out = out; wr_blk = new_block })
      | e ↦ (e, record c { out = out })
    ]

-- One record: into its block, and the block to the file when it is full or the record is the last.
unfoldable pub copy_record :
    Copy → (is_last : Bool) → (ts : ℕ) → Values → Cache → (entry block : Outcome) → EspErr × Copy
copy_record c is_last ts values cache entry block =
    let rpb = c.header.records_per_block in
    let c' = place_row c ts values cache entry in
    if (c.out_written % rpb == rpb - 1) || is_last then flush_block c' block else (esp_ok, c')

-- The copy loop from position `k` on, with `n` to go. An unreadable block ends it without an error.
unfoldable pub copy_loop :
    (n k : ℕ) → Handle → (available : ℕ) → (ℕ → Option ℕ) → EngineEnv → Copy → EspErr × Copy
copy_loop zero k db available col_map env c = (esp_ok, c)
copy_loop (suc n) k db available col_map env c = elim (migrate_read_record db k available c.cache) [
  | none ↦ (esp_ok, c)
  | some (ts, row, cache) ↦
      let old_total = db.header.num_params + db.extra_param_count in
      let (e, c') =
        copy_record c (k == available - 1) ts (map_row col_map old_total row) cache
          (env.index_entry k) (env.block k) in
      elim e [ esp_ok ↦ copy_loop n (k + 1) db available col_map env c' | e' ↦ (e', c') ]
]

-- Section 6: the counters of the new header.
unfoldable pub final_header : Header → (out_written : ℕ) → Header
final_header nh out_written = record nh {
  total_records = out_written;
  total_writes = out_written;
  oldest_record_idx = 0;
  newest_record_idx = if ltb 0 out_written then out_written - 1 else 0;
  total_evictions = 0;
}

-- Sections 4 to 6: the .mig file, and the header in it.
unfoldable pub build_file :
    Handle
    → Plan
    → (ℕ → Option Mem)
    → (ℕ → Option ℕ)
    → EngineEnv
    → (rd_blk : Mem) → EspErr × File × Header
build_file db p names col_map env rd_blk =
    let available = available_records db.header in
    let skip = available - p.retain in
    let nh = new_header db.header p names in
    let (e0, f0) = start_file nh names env in
    let start : Copy = record {
      out = f0;
      wr_blk = new_block;
      cache = record { cached_blk = u32 - 1; blk_buf = rd_blk };
      header = nh;
      out_written = 0;
    } in
    let (e1, c) = copy_loop (available - skip) skip db available col_map env start in
    let nh' = final_header c.header c.out_written in
    let out = write_item c.out 0 header_size (encode nh') env.last_header in
    elim e0 [
      | esp_ok ↦ elim e1 [
        | esp_ok ↦ (if is_done env.last_header then esp_ok else esp_fail, out, nh')
        | e ↦ (e, c.out, c.header)
      ]
      | e ↦ (e, f0, nh)
    ]
