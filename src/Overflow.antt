-- ===== src/Overflow.antt =====
-- tsdb_add_extra_params_h of src/tsdb_core.c: new columns in a region at the end of the file.
pub mod Keeps
pub mod Relayout
pub mod Moved
pub mod Columns
pub mod Search
pub mod Matched
use esp_tsdb.Prelude.{
  ℕ, zero, suc, ◌+◌, ◌-◌, ◌*◌, ◌/◌, ◌%◌, ◌^◌, Bool, true, false, not, ◌&&◌, ◌||◌, ltb, leb, ◌==◌,
  if◌then◌else◌, Option, none, some,
}
use esp_tsdb.Bytes.{Mem, zeros, put32}
use esp_tsdb.Format.{
  Header, EspErr, esp_ok, esp_fail, err_invalid_arg, err_invalid_state, u32, add32, max_params,
  max_extra_params, overflow_header_size,
}
use esp_tsdb.Storage.{File, Outcome, is_done, write_item}
use esp_tsdb.Handle.{Handle, Locked, held, refused, lock_open}
use esp_tsdb.Header.{write_header}
use esp_tsdb.Names.{ext_name_len, overflow_names}
use esp_tsdb.Engine.Build.{copy_name}

-- "OVFR"
abbrev pub overflow_magic : ℕ
overflow_magic = 0x4F564652

-- The bytes of a `tsdb_overflow_header_t`.
unfoldable pub overflow_bytes : (count first_record_idx : ℕ) → (ℕ → Mem) → Mem
overflow_bytes count first_record_idx names q =
    let i = (q - overflow_names) / ext_name_len in
    if ltb q overflow_names
    then if q == 4 then count else put32 (put32 zeros 0 overflow_magic) 8 first_record_idx q
    else if ltb i count
    then copy_name ext_name_len (some (names i)) ((q - overflow_names) % ext_name_len)
    else 0

-- The fields of the main header.
unfoldable pub with_overflow : Header → (count overflow_offset : ℕ) → Header
with_overflow h count overflow_offset = record h {
  extra_param_count = count;
  overflow_record_size = count * 2;
  overflow_offset = overflow_offset;
  first_overflow_record_idx = h.total_records;
}

-- The fields of the handle.
unfoldable pub activate : Handle → (count overflow_offset : ℕ) → Handle
activate db count overflow_offset = record db {
  extra_param_count = count;
  overflow_record_size = count * 2;
  first_overflow_record_idx = db.header.total_records;
  overflow_data_offset = add32 overflow_offset overflow_header_size;
}

-- Under the lock; `overflow` and `header` are how the two fwrites end.
unfoldable pub add_locked :
    Handle → (ℕ → Mem) → (count : ℕ) → (overflow header : Outcome) → EspErr × Handle
add_locked db names count overflow header =
    let off = db.file.size % u32 in
    let f1 =
      write_item db.file off overflow_header_size
        (overflow_bytes count db.header.total_records names) overflow in
    let h = with_overflow db.header count off in
    let (e, f2) = write_header f1 h header in
    if not (is_done overflow)
    then (esp_fail, record db { file = f1 })
    else if not (is_done header)
    then (esp_fail, record db { file = f2; header = h })
    else (esp_ok, activate (record db { file = f2; header = h }) count off)

-- tsdb_add_extra_params_h
unfoldable pub add_extra_params_h :
    (seen : Handle) (got : Option Handle)
    → Option (ℕ → Mem)
    → (count : ℕ) → (overflow header : Outcome) → EspErr × Handle
add_extra_params_h seen got none count overflow header =
    (if seen.is_open then err_invalid_arg else err_invalid_state, seen)
add_extra_params_h seen got (some names) count overflow header =
    if not seen.is_open
    then (err_invalid_state, seen)
    else if count == 0 || ltb max_extra_params count
    then (err_invalid_arg, seen)
    else if ltb max_params (seen.header.num_params + count)
    then (err_invalid_arg, seen)
    else if ltb 0 seen.extra_param_count
    then (err_invalid_state, seen)
    else elim (lock_open seen got) [
      | refused e db ↦ (e, db)
      | held db ↦ add_locked db names count overflow header
    ]
