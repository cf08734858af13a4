-- ===== src/Fold.antt =====
-- tsdb_fold_header and tsdb_rebuild_index_ of src/tsdb_core.c: the header and the sparse index go
-- back into the file, and the sidecars go.
pub mod Keeps
pub mod InFile
pub mod Index
use esp_tsdb.Prelude.{
  ℕ, zero, suc, ◌+◌, ◌-◌, ◌*◌, ◌/◌, ◌%◌, Bool, true, false, not, ◌&&◌, ◌||◌, ltb, leb, ◌==◌,
  if◌then◌else◌, Option, none, some,
}
use esp_tsdb.Bytes.{Mem, zeros, blit, get32, put32}
use esp_tsdb.Format.{
  Header, EspErr, esp_ok, esp_fail, err_invalid_arg, u32, add32, header_size, calc_block_offset,
}
use esp_tsdb.Format.Codec.{encode}
use esp_tsdb.Storage.{File, Outcome, is_done, read_item, write_item}
use esp_tsdb.Handle.{Handle}
use esp_tsdb.Sidecar.{sidecar_remove}

-- A `tsdb_index_entry_t`.
unfoldable pub entry_bytes : (timestamp block_number : ℕ) → Mem
entry_bytes timestamp block_number = put32 (put32 zeros 0 timestamp) 4 block_number

-- One round of tsdb_rebuild_index_: entry `k`, from the timestamp in the file. What cannot be read
-- leaves the image as it is.
unfoldable pub rebuild_entry : File → Header → (k : ℕ) → Mem → Mem
rebuild_entry f h k buf =
    let slot = k * h.index_stride % u32 in
    let block = slot / h.records_per_block in
    let rec = slot % h.records_per_block in
    elim (read_item f (add32 (calc_block_offset h block) (8 + rec * 4)) 4) [
      | none ↦ buf
      | some m ↦ blit buf (h.index_offset + k * 8) 8 (entry_bytes (get32 m 0) block)
    ]

-- tsdb_rebuild_index_ from entry `k` on, `n` of them, into the image `buf`.
unfoldable pub rebuild_index : (n k : ℕ) → File → Header → Mem → Mem
rebuild_index zero k f h buf = buf
rebuild_index (suc n) k f h buf = rebuild_index n (k + 1) f h (rebuild_entry f h k buf)

-- TSDB_FOLD_MAX_BYTES
abbrev pub fold_max_bytes : ℕ
fold_max_bytes = 16384

-- What the environment does: malloc, the one fwrite, and fflush with fsync.
pub record FoldEnv : Type 0 where
  pub malloc_ok : Bool
  pub write : Outcome
  pub sync_ok : Bool

-- Slots that hold a record.
unfoldable pub written_slots : Header → ℕ
written_slots h =
    if ltb 0 h.max_records && ltb h.max_records h.total_records
    then h.max_records
    else h.total_records

-- The number of index entries to rebuild.
unfoldable pub fold_entries : Handle → ℕ
fold_entries db =
    let h = db.header in
    let n = (written_slots h + h.index_stride - 1) % u32 / h.index_stride in
    if db.index_stale && ltb 0 h.index_stride
    then if ltb h.index_entries n then h.index_entries else n
    else 0

-- The length of the image of header and index, 0 when there is none.
unfoldable pub fold_len : Handle → ℕ
fold_len db = if fold_entries db == 0 then 0 else add32 db.header.index_offset (fold_entries db * 8)

-- fread of the first `len` bytes, with zeros where the file ends.
unfoldable pub file_image : File → Mem
file_image f q = if ltb q f.size then f.bytes q else 0

-- The image: the file's start, the rebuilt index, and the header over it.
unfoldable pub fold_image : Handle → Mem
fold_image db =
    blit (rebuild_index (fold_entries db) 0 db.file db.header (file_image db.file)) 0 header_size
      (encode db.header)

unfoldable pub has_image : Handle → FoldEnv → Bool
has_image db env = ltb 0 (fold_len db) && leb (fold_len db) fold_max_bytes && env.malloc_ok

-- The file after the one write.
unfoldable pub fold_file : Handle → FoldEnv → File
fold_file db env =
    if has_image db env
    then write_item db.file 0 (fold_len db) (fold_image db) env.write
    else write_item db.file 0 header_size (encode db.header) env.write

unfoldable pub fold_ok : FoldEnv → Bool
fold_ok env = is_done env.write && env.sync_ok

-- The file is self-contained again.
unfoldable pub fold_done : Handle → Handle
fold_done db = record db {
  in_file_header_stale = false;
  index_stale = false;
  side = sidecar_remove db.side;
  side_dir_ready = false;
  legacy_mirrored = false;
  legacy_seq = 0;
}

-- tsdb_fold_header
unfoldable pub fold_header : Handle → FoldEnv → EspErr × Handle
fold_header db env =
    let db' = record db { file = fold_file db env } in
    if not db.file_open
    then (err_invalid_arg, db)
    else if fold_ok env
    then (esp_ok, fold_done db')
    else (esp_fail, db')
