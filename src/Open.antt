-- ===== src/Open.antt =====
-- tsdb_open of src/tsdb_core.c on the handle that tsdb_acquire_handle gave.
pub mod Fresh
pub mod Resume
pub mod Durable
use esp_tsdb.Prelude.{
  ℕ, zero, suc, ◌+◌, ◌-◌, ◌*◌, ◌/◌, ◌%◌, ◌^◌, Bool, true, false, ◌&&◌, ◌||◌, not, ltb, leb, ◌==◌,
  if◌then◌else◌, Option, none, some,
}
use esp_tsdb.Bytes.{Mem}
use esp_tsdb.Format.{
  Header, EspErr, esp_ok, u32, add32, magic, header_size, v4_ext_names_offset, overflow_header_size,
}
use esp_tsdb.Format.Codec.{encode}
use esp_tsdb.Storage.{File, empty_file, Outcome, done, cut, is_done, write_item}
use esp_tsdb.Buffer.{Pool, Heap, alloc_buffer_pool, free_buffer_pool}
use esp_tsdb.Handle.{Handle, SideFiles}
use esp_tsdb.Header.{read_header, write_header, header_is_sane}
use esp_tsdb.Sidecar.{sidecar_load, sidecar_remove}
use esp_tsdb.Lifecycle.{zero_entries}
use esp_tsdb.Names.{ext_name_len}
use esp_tsdb.Migrate.{Disk, RecoverEnv, migrate_recover}
use esp_tsdb.Engine.Build.{copy_name}
use esp_tsdb.Config.{Config, config_ok, is_wide, initial_header}
use esp_tsdb.Reconstruct.{reconstruct_header}
use esp_tsdb.Upgrade.{UpgradeEnv, upgrade, torn_version}

-- What the environment does during tsdb_open.
pub record OpenEnv : Type 0 where
  pub spiram_free : ℕ
  pub recover : RecoverEnv
  pub opens : Bool
  pub creates : Bool
  pub reconstructed : Outcome
  pub upgrade : UpgradeEnv
  pub header : Outcome
  pub name : ℕ → Outcome
  pub entry : ℕ → Outcome

-- The regions of the buffer pool.
unfoldable pub partition_pool : Handle → Handle
partition_pool db = record db {
  read_buffer_offset = 0;
  write_cache_offset = 1024;
  query_buffer_offset = 2048;
  stream_buffer_offset = 3072;
  stream_buffer_size = (db.pool.total_size + u32 - 3072) % u32;
}

-- What the in-file header says: unusable, torn by an upgrade, or usable.
pub data InFile : Type 0 where
  unusable : InFile
  torn : InFile
  usable : Header → InFile

unfoldable pub judge_header : File → InFile
judge_header f = elim (read_header f) [
  | none ↦ unusable
  | some h ↦
      if not (h.magic_word == magic)
      then unusable
      else if h.version == torn_version
      then torn
      else if not (header_is_sane h)
      then unusable
      else usable h
]

-- Whether the header from the sidecars is a later state of the same geometry.
unfoldable pub is_ahead : (sidecar in_file : Header) → Bool
is_ahead s h =
    (s.magic_word == magic)
    && header_is_sane s
    && (s.num_params == h.num_params)
    && (s.records_per_block == h.records_per_block)
    && (s.index_offset == h.index_offset)
    && leb h.total_records s.total_records

-- The sidecars are looked at, and their header taken if it is ahead.
unfoldable pub adopt_sidecar : Handle → Header → Handle
adopt_sidecar db h =
    let (db', out) = sidecar_load db h in
    elim out [
      | none ↦ record db' { header = h }
      | some s ↦
          if is_ahead s h
          then record db' { header = s; index_stale = true }
          else record db' { header = h }
    ]

-- The overflow state in the header.
unfoldable pub load_overflow : Handle → Handle
load_overflow db =
    let h = db.header in
    if ltb 0 h.extra_param_count && ltb 0 h.overflow_offset
    then record db {
      extra_param_count = h.extra_param_count;
      overflow_record_size = h.overflow_record_size;
      first_overflow_record_idx = h.first_overflow_record_idx;
      overflow_data_offset = add32 h.overflow_offset overflow_header_size;
    }
    else db

-- V1 files have base_params 0.
unfoldable pub fix_base_params : Header → Header
fix_base_params h = if h.base_params == 0 then record h { base_params = h.num_params } else h

-- The checks and fixes on an existing database. `none` is the refusal of another parameter count.
unfoldable pub finish_existing : Handle → Config → UpgradeEnv → Option Handle
finish_existing db c env =
    let h = fix_base_params db.header in
    let (h', f) = upgrade h db.file env in
    if not (h.num_params == c.num_params)
    then none
    else some (load_overflow (record db { header = h'; file = f }))

-- How far an fwrite of `len` bytes moves the file position.
unfoldable pub moved_by : (len : ℕ) → Outcome → ℕ
moved_by len done = len
moved_by len (cut n e) = if ltb len n then len else n

-- The extended names from column `i` on, `n` of them, from position `pos` on. No result is looked at.
unfoldable pub put_names : (n i pos : ℕ) → Option (ℕ → Option Mem) → (ℕ → Outcome) → File → File
put_names zero i pos names env f = f
put_names (suc n) i pos names env f =
    let name : Option Mem = elim names [ none ↦ none | some ns ↦ ns i ] in
    put_names n (i + 1) (pos + moved_by ext_name_len (env i)) names env
      (write_item f pos ext_name_len (copy_name ext_name_len name) (env i))

-- The new file after its header: the names and the zero index.
unfoldable pub fill_new : Config → Header → OpenEnv → File → File
fill_new c h env f =
    let named =
      if is_wide c
      then put_names (c.num_params - 16) 16 v4_ext_names_offset c.param_names env.name f
      else f in
    zero_entries h.index_entries 0 h.index_offset named env.entry

-- A new database in the place of whatever is there. `none` is a file that cannot be created, or a
-- header that cannot be written.
unfoldable pub create_new : Handle → Config → OpenEnv → Option Handle
create_new db c env =
    let h = initial_header c in
    let (e, f) = write_header empty_file h env.header in
    if not env.creates
    then none
    else if not (is_done env.header)
    then none
    else some (record db {
      header = h;
      file = fill_new c h env f;
      side = sidecar_remove db.side;
      sidecar_seq = 0;
    })

-- A file whose header cannot be used: too small or without a header to rebuild, it is created anew.
unfoldable pub rebuild_existing : Handle → Config → OpenEnv → Option Handle
rebuild_existing db c env =
    if ltb db.file.size 512 then create_new db c env else elim (reconstruct_header db.file c) [
      | none ↦ create_new db c env
      | some h ↦
          if is_done env.reconstructed
          then finish_existing
              (record db { header = h; file = (write_header db.file h env.reconstructed).1 }) c
              env.upgrade
          else none
    ]

-- The file is there and fopen gives it.
unfoldable pub open_existing : Handle → Config → OpenEnv → Option Handle
open_existing db c env = elim (judge_header db.file) [
  | unusable ↦ rebuild_existing db c env
  | torn ↦ create_new db c env
  | usable h ↦ finish_existing (adopt_sidecar db h) c env.upgrade
]

-- From tsdb_migrate_recover on: the file at the path, or a new one.
unfoldable pub open_file : Handle → Disk → Config → OpenEnv → Option Handle
open_file db disk c env = elim (migrate_recover disk env.recover).main [
  | none ↦ create_new db c env
  | some f ↦ if env.opens then open_existing (record db { file = f }) c env else create_new db c env
]

-- tsdb_open on a handle that is wiped, with the files of the path: the open handle and the heap. `none` is NULL, with the pool
-- freed and the handle to be retired.
unfoldable pub open_db : Handle → Disk → SideFiles → Config → Heap → OpenEnv → Option Handle × Heap
open_db db disk side c hp env =
    let (e, pool, hp') =
      alloc_buffer_pool c.buffer_pool_size c.use_paged_allocation c.page_size c.alloc_strategy
        env.spiram_free db.pool hp in
    let db1 = partition_pool (record db {
      side = side;
      pool = pool;
      has_free_space_cb = c.has_free_space_cb;
      min_free_bytes = c.min_free_bytes;
    }) in
    if not (config_ok c) then (none, hp) else elim e [
      | esp_ok ↦ elim (open_file db1 disk c env) [
        | none ↦ (none, (free_buffer_pool pool hp').1)
        | some db2 ↦ (some (record db2 { file_open = true; is_open = true }), hp')
      ]
      | _ ↦ (none, hp')
    ]
