-- ===== src/Overflow/Relayout.antt =====
-- tsdb_migrate_overflow_h of src/tsdb_core.c: the overflow region with other columns.
use esp_tsdb.Prelude.{
  ℕ, zero, suc, ◌+◌, ◌-◌, ◌*◌, ◌%◌, Bool, true, false, not, ◌&&◌, ltb, leb, ◌==◌, if◌then◌else◌,
  Option, none, some,
}
use esp_tsdb.Bytes.{Mem, from_offset, get16, get32}
use esp_tsdb.Format.{
  Header, EspErr, esp_ok, esp_fail, err_invalid_arg, err_invalid_state, u32, add32,
  max_extra_params, overflow_header_size,
}
use esp_tsdb.Storage.{File, Outcome, is_done, read_item, write_item}
use esp_tsdb.Handle.{Handle, held, refused, lock_open}
use esp_tsdb.Header.{write_header}
use esp_tsdb.Names.{ext_name_len, overflow_names, same_name}
use esp_tsdb.Write.{Values, values_bytes}
use esp_tsdb.Overflow.{overflow_magic, overflow_bytes, add_extra_params_h}

-- old_ovf.param_names
abbrev pub old_names : Mem → ℕ → Mem
old_names ovf j = from_offset ovf (overflow_names + j * ext_name_len)

-- Whether the names from `i` on, `n` of them, are the same.
unfoldable pub same_names : (n i : ℕ) → (new_names old : ℕ → Mem) → Bool
unfolding same_name
same_names zero i new_names old = true
same_names (suc n) i new_names old =
    let rest = same_names n (i + 1) new_names old in
    if same_name (ext_name_len - 1) 0 (new_names i) (old i) then rest else false

-- The first old column from `j` on with the name, of `n` columns. `none` is -1.
unfoldable pub old_column : (n j : ℕ) → Mem → (old : ℕ → Mem) → Option ℕ
unfolding same_name
old_column zero j name old = none
old_column (suc n) j name old =
    let rest = old_column n (j + 1) name old in
    if same_name (ext_name_len - 1) 0 name (old j) then some j else rest

-- The two regions and col_map.
pub record Layout : Type 0 where
  pub old_data_offset : ℕ
  pub old_record_size : ℕ
  pub old_count : ℕ
  pub new_data_offset : ℕ
  pub new_count : ℕ
  pub col_map : ℕ → Option ℕ

-- old_vals after an fread of `count` items: those past the end of the file stay 0.
unfoldable pub old_values : File → (pos count : ℕ) → Values
unfolding get16
old_values f pos count j =
    if ltb j count && leb (pos + j * 2 + 2) f.size then get16 f.bytes (pos + j * 2) else 0

unfoldable pub new_values : (ℕ → Option ℕ) → (old_vals : Values) → Values
new_values col_map old_vals i = elim (col_map i) [ none ↦ 0 | some j ↦ old_vals j ]

-- Where record `r` is read and written.
unfoldable pub old_pos : Layout → ℕ → ℕ
old_pos l r = add32 l.old_data_offset (r * l.old_record_size)

unfoldable pub new_pos : Layout → ℕ → ℕ
new_pos l r = add32 l.new_data_offset (r * (l.new_count * 2))

-- Section 5, the records from `r` on, `n` of them. No result of fwrite is looked at.
unfoldable pub move_extras : (n r : ℕ) → Layout → (ℕ → Outcome) → File → File
move_extras zero r l env f = f
move_extras (suc n) r l env f =
    let vals = new_values l.col_map (old_values f (old_pos l r) l.old_count) in
    move_extras n (r + 1) l env
      (write_item f (new_pos l r) (l.new_count * 2) (values_bytes vals) (env r))

-- The case of no columns: the region is dropped from the header and the handle.
unfoldable pub drop_overflow : Handle → Outcome → Handle
drop_overflow db header =
    let h = record (db.header) {
      extra_param_count = 0;
      overflow_record_size = 0;
      overflow_offset = 0;
      first_overflow_record_idx = 0;
    } in
    record db {
      header = h;
      file = (write_header db.file h header).1;
      extra_param_count = 0;
      overflow_record_size = 0;
      overflow_data_offset = 0;
      first_overflow_record_idx = 0;
    }

-- What the environment does during the call.
pub record RelayoutEnv : Type 0 where
  pub overflow : Outcome
  pub values : ℕ → Outcome
  pub header : Outcome

-- Section 6, the main header.
unfoldable pub with_region : Header → (new_overflow_offset new_count : ℕ) → Header
with_region h new_overflow_offset new_count = record h {
  overflow_offset = new_overflow_offset;
  extra_param_count = new_count;
  overflow_record_size = new_count * 2;
}

-- Section 5, how many records there are to move.
unfoldable pub overflow_records : Handle → ℕ
overflow_records db =
    if ltb db.first_overflow_record_idx db.header.total_records
    then db.header.total_records - db.first_overflow_record_idx
    else 0

-- The regions before and after; `ovf` is the old overflow header.
unfoldable pub layout_of : Handle → (old_count : ℕ) → Mem → (ℕ → Mem) → (new_count : ℕ) → Layout
layout_of db old_count ovf new_names new_count = record {
  old_data_offset = db.overflow_data_offset;
  old_record_size = db.overflow_record_size;
  old_count = old_count;
  new_data_offset = add32 (db.file.size % u32) overflow_header_size;
  new_count = new_count;
  col_map =
      λ i. if ltb i new_count then old_column old_count 0 (new_names i) (old_names ovf) else none;
}

-- From section 3 on.
unfoldable pub relayout : Handle → Layout → (ℕ → Mem) → RelayoutEnv → EspErr × Handle
relayout db l new_names env =
    let off = db.file.size % u32 in
    let f1 =
      write_item db.file off overflow_header_size
        (overflow_bytes l.new_count db.first_overflow_record_idx new_names) env.overflow in
    let f2 = move_extras (overflow_records db) 0 l env.values f1 in
    let h = with_region db.header off l.new_count in
    if not (is_done env.overflow) then (esp_fail, record db { file = f1 }) else (
      esp_ok,
      record db {
        header = h;
        file = (write_header f2 h env.header).1;
        extra_param_count = l.new_count;
        overflow_record_size = l.new_count * 2;
        overflow_data_offset = l.new_data_offset;
      },
    )

-- Under the lock, with columns before and after; `old_count` was read before the lock was taken.
unfoldable pub relayout_locked :
    Handle → (old_count : ℕ) → (ℕ → Mem) → (new_count : ℕ) → RelayoutEnv → EspErr × Handle
relayout_locked db old_count new_names new_count env =
    elim (read_item db.file db.header.overflow_offset overflow_header_size) [
      | none ↦ (esp_fail, db)
      | some ovf ↦
          if not (get32 ovf 0 == overflow_magic)
          then (esp_fail, db)
          else if (old_count == new_count) && same_names new_count 0 new_names (old_names ovf)
          then (esp_ok, db)
          else relayout db (layout_of db old_count ovf new_names new_count) new_names env
    ]

-- tsdb_migrate_overflow_h; `none` for the names is NULL.
unfoldable pub migrate_overflow_h :
    (seen : Handle) (got : Option Handle)
    → (new_names : Option (ℕ → Mem)) → (new_count : ℕ) → RelayoutEnv
    → EspErr × Handle
migrate_overflow_h seen got none new_count env =
    if not seen.is_open
    then (err_invalid_state, seen)
    else if ltb 0 new_count
    then (err_invalid_arg, seen)
    else if seen.extra_param_count == 0
    then (esp_ok, seen)
    else elim (lock_open seen got) [
      | refused e db ↦ (e, db)
      | held db ↦ (esp_ok, drop_overflow db env.header)
    ]
migrate_overflow_h seen got (some new_names) new_count env =
    if not seen.is_open
    then (err_invalid_state, seen)
    else if ltb max_extra_params new_count
    then (err_invalid_arg, seen)
    else if (seen.extra_param_count == 0) && (new_count == 0)
    then (esp_ok, seen)
    else if seen.extra_param_count == 0
    then add_extra_params_h seen got (some new_names) new_count env.overflow env.header
    else elim (lock_open seen got) [
      | refused e db ↦ (e, db)
      | held db ↦
          if new_count == 0
          then (esp_ok, drop_overflow db env.header)
          else relayout_locked db seen.extra_param_count new_names new_count env
    ]
