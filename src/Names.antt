-- ===== src/Names.antt =====
-- Column names: tsdb_get_param_name_h of src/tsdb_core.c with its three stores, and how
-- src/tsdb_migrate.c matches them.
use esp_tsdb.Prelude.{
  ℕ, zero, suc, ◌+◌, ◌-◌, ◌*◌, ◌%◌, ◌^◌, Bool, true, false, not, ◌&&◌, ◌||◌, ltb, leb, ◌==◌,
  if◌then◌else◌, Option, none, some,
}
use esp_tsdb.Bytes.{Mem, from_offset}
use esp_tsdb.Format.{v4_ext_names_offset}
use esp_tsdb.Storage.{read_item}
use esp_tsdb.Handle.{Handle}

-- TSDB_V4_EXT_NAME_LEN, and the size of a name in the overflow header.
abbrev pub ext_name_len : ℕ
ext_name_len = 20

-- offsetof(tsdb_overflow_header_t, param_names)
abbrev pub overflow_names : ℕ
overflow_names = 12

-- buf[len - 1] = '\0'
unfoldable pub terminate : (len : ℕ) → Mem → Mem
terminate len buf i = if i == len - 1 then 0 else buf i

-- tsdb_get_param_name_h on an open handle. `none` is NULL.
unfoldable pub get_param_name_h : Handle → (index : ℕ) → Option Mem
get_param_name_h db index =
    let h = db.header in
    let extra_idx = index - h.num_params in
    if not db.is_open
    then none
    else if ltb index h.num_params
    then if ltb index 16
      then some (from_offset h.param_names (index * 32))
      else elim (read_item db.file (v4_ext_names_offset + (index - 16) * ext_name_len)
          ext_name_len) [ none ↦ none | some m ↦ some (terminate ext_name_len m) ]
    else if leb db.extra_param_count extra_idx || h.overflow_offset == 0
    then none
    else elim (read_item db.file ((h.overflow_offset + overflow_names + extra_idx * 20) % 2 ^ 32)
        20) [ none ↦ none | some m ↦ some (terminate 20 m) ]

-- tsdb_get_total_params_h, as a uint8_t
unfoldable pub get_total_params_h : Handle → ℕ
get_total_params_h db =
    if not db.is_open then 0 else (db.header.num_params + db.extra_param_count) % 2 ^ 8

-- tsdb_has_overflow_h
unfoldable pub has_overflow_h : Handle → Bool
has_overflow_h db = db.is_open && ltb 0 db.extra_param_count

-- strncmp(a, b, n) == 0, from byte `i` on.
unfoldable pub same_name : (n i : ℕ) → Mem → Mem → Bool
same_name zero i a b = true
same_name (suc n) i a b =
    let rest = same_name n (i + 1) a b in if not (a i == b i) then false else a i == 0 || rest

-- The match of a new name with the old column `j`. A name in the header has its NUL in 32 bytes, and
-- with it strcmp is a strncmp over those.
unfoldable pub name_matches : Handle → (j : ℕ) → Mem → Bool
name_matches db j new_name = elim (get_param_name_h db j) [
  | none ↦ false
  | some old_name ↦ same_name (if ltb j 16 then 32 else ext_name_len - 1) 0 new_name old_name
]

-- The first old column from `j` on with the name, of `n` columns.
unfoldable pub find_column : (n j : ℕ) → Handle → Mem → Option ℕ
find_column zero j db new_name = none
find_column (suc n) j db new_name =
    let rest = find_column n (j + 1) db new_name in
    if name_matches db j new_name then some j else rest
