-- ===== src/Migrate.antt =====
-- src/tsdb_migrate.c: what tsdb_open finds after a migration, the copy of one record, and
-- tsdb_resize_h where the header alone changes.
pub mod Crash
pub mod Rows
pub mod Resize
use esp_tsdb.Prelude.{
  ℕ, zero, suc, ◌+◌, ◌-◌, ◌*◌, ◌/◌, ◌%◌, Bool, true, false, not, ◌&&◌, ◌||◌, ltb, leb, ◌==◌,
  if◌then◌else◌, Option, none, some,
}
use esp_tsdb.Bytes.{Mem}
use esp_tsdb.Format.{
  Header, EspErr, esp_ok, err_invalid_state, magic, u32, add32, block_ts, block_param,
}
use esp_tsdb.Storage.{File, read_item}
use esp_tsdb.Handle.{Handle, Locked, held, refused, lock_open}
use esp_tsdb.Header.{read_header}
use esp_tsdb.Write.{Values, read_block}
use esp_tsdb.Fold.{FoldEnv, fold_header}

-- The files at <db> and at <db>.mig.
pub record Disk : Type 0 where
  pub main : Option File
  pub mig : Option File

-- Whether unlink and rename succeed.
pub record RecoverEnv : Type 0 where
  pub unlinks : Bool
  pub renames : Bool

-- The header of the orphan checks out.
unfoldable pub is_valid_mig : File → Bool
is_valid_mig f = elim (read_header f) [ none ↦ false | some h ↦ h.magic_word == magic ]

-- unlink(mig_path)
unfoldable pub drop_mig : Disk → RecoverEnv → Disk
drop_mig d env = if env.unlinks then record d { mig = none } else d

-- The .mig is the only file.
unfoldable pub adopt_mig : Disk → File → RecoverEnv → Disk
adopt_mig d f env =
    if is_valid_mig f
    then if env.renames then record { main = some f; mig = none } else d
    else drop_mig d env

-- tsdb_migrate_recover
unfoldable pub migrate_recover : Disk → RecoverEnv → Disk
migrate_recover d env = elim d.mig [
  | none ↦ d
  | some f ↦ elim d.main [ none ↦ adopt_mig d f env | some g ↦ drop_mig d env ]
]

-- The slot of the record at logical position `k`.
unfoldable pub source_slot : Header → ℕ → ℕ
source_slot h k = if h.max_records == 0 then k else add32 h.oldest_record_idx k % h.max_records

-- The block buffer of a copy, and *cached_blk: the block in it.
pub record Cache : Type 0 where
  pub cached_blk : ℕ
  pub blk_buf : Mem

-- The block is read unless it is the one in the buffer.
unfoldable pub fetch : Handle → (blk : ℕ) → Cache → Option Cache
fetch db blk c = if c.cached_blk == blk then some c else elim (read_block db blk) [
  | none ↦ none
  | some m ↦ some (record { cached_blk = blk; blk_buf = m })
]

-- The overflow columns of the record: zeros where the region does not have them.
unfoldable pub read_extras : Handle → (k available : ℕ) → ℕ → ℕ
read_extras db k available p =
    let abs_idx = (db.header.total_records + (u32 - available) + k) % u32 in
    let idx = abs_idx - db.first_overflow_record_idx in
    let ovf_offset = add32 db.overflow_data_offset (idx * db.overflow_record_size) in
    if leb db.first_overflow_record_idx abs_idx
    then elim (read_item db.file ovf_offset (db.extra_param_count * 2)) [
      | none ↦ 0
      | some m ↦ m (p * 2) + 256 * m (p * 2 + 1)
    ]
    else 0

-- The row: the base columns from the block, then the extras.
unfoldable pub row_of : Handle → (k available slot : ℕ) → Mem → Values
row_of db k available slot blk_buf p =
    let h = db.header in
    if ltb p h.num_params
    then block_param blk_buf h.records_per_block p (slot % h.records_per_block)
    else read_extras db k available (p - h.num_params)

-- migrate_read_record: the timestamp, the row and the buffer. `none` is an unreadable block.
unfoldable pub migrate_read_record :
    Handle → (k available : ℕ) → Cache → Option (ℕ × Values × Cache)
migrate_read_record db k available c =
    let rpb = db.header.records_per_block in
    let slot = source_slot db.header k in
    elim (fetch db (slot / rpb) c) [
      | none ↦ none
      | some c' ↦ some (block_ts c'.blk_buf (slot % rpb), row_of db k available slot c'.blk_buf, c')
    ]

-- The layout never wrapped.
unfoldable pub is_linear : Header → Bool
is_linear h =
    (h.oldest_record_idx == 0) && (h.max_records == 0 || leb h.total_records h.max_records)

-- The new capacity has room for every record.
unfoldable pub covers : Header → (new_max : ℕ) → Bool
covers h new_max = new_max == 0 || leb h.total_records new_max

unfoldable pub is_fast : Handle → (new_max : ℕ) → Bool
is_fast db new_max = is_linear db.header && covers db.header new_max && (db.extra_param_count == 0)

-- The header-only change; the old capacity comes back when the fold fails.
unfoldable pub resize_fast : Handle → (new_max : ℕ) → FoldEnv → EspErr × Handle
resize_fast db new_max env =
    let (ret, db') =
      fold_header (record db { header = record (db.header) { max_records = new_max } }) env in
    elim ret [
      | esp_ok ↦ (esp_ok, record db' { capacity_adapted = false })
      | e ↦ (e, record db' { header = record (db'.header) { max_records = db.header.max_records } })
    ]

-- tsdb_resize_h; `engine` is what tsdb_migrate_engine does on the handle that it is given.
unfoldable pub resize_h :
    (seen : Handle) (got : Option Handle) (new_max : ℕ)
    → FoldEnv
    → (engine : Handle → EspErr × Handle) → EspErr × Handle
resize_h seen got new_max env engine =
    if not seen.is_open then (err_invalid_state, seen) else elim (lock_open seen got) [
      | refused e db ↦ (e, db)
      | held db ↦
          if new_max == db.header.max_records
          then (esp_ok, db)
          else if is_fast db new_max
          then resize_fast db new_max env
          else engine db
    ]
