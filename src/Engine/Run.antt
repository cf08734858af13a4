-- ===== src/Engine/Run.antt =====
-- Sections 1, 7 and 8 of tsdb_migrate_engine of src/tsdb_migrate.c, and tsdb_migrate_schema_h.
use esp_tsdb.Prelude.{
  ℕ, zero, suc, ◌+◌, ◌%◌, ◌^◌, Bool, true, false, not, ◌&&◌, ◌||◌, ltb, ◌==◌, if◌then◌else◌, Option,
  none, some,
}
use esp_tsdb.Bytes.{Mem}
use esp_tsdb.Format.{
  Header, EspErr, esp_ok, esp_fail, err_no_mem, err_invalid_arg, err_invalid_state, max_params,
}
use esp_tsdb.Storage.{File, empty_file}
use esp_tsdb.Handle.{Handle, held, refused, lock_open}
use esp_tsdb.Names.{get_param_name_h, find_column}
use esp_tsdb.Engine.{MigrateOpts, Plan, make_plan}
use esp_tsdb.Engine.Build.{EngineEnv, build_file}

-- Section 8: the handle after the swap.
unfoldable pub adopt_schema : Handle → File → Header → Handle
adopt_schema db f nh = record db {
  file = f;
  header = nh;
  extra_param_count = 0;
  overflow_record_size = 0;
  overflow_data_offset = 0;
  first_overflow_record_idx = 0;
  capacity_adapted = false;
  migrating = false;
}

-- A failed swap: the original is closed and unlinked, db->file is NULL and the handle is closed. `f`
-- is what the path has: the new file, or nothing when the rename failed.
unfoldable pub lose_file : Handle → File → Handle
lose_file db f = record db { file_open = false; file = f; is_open = false; migrating = false }

-- Sections 3 to 8.
unfoldable pub run_plan :
    Handle → Plan → (ℕ → Option Mem) → (ℕ → Option ℕ) → EngineEnv → (rd_blk : Mem) → EspErr × Handle
run_plan db p names col_map env rd_blk =
    let (e, out, nh) = build_file db p names col_map env rd_blk in
    if not env.malloc_ok || not env.opens_mig
    then (err_no_mem, record db { migrating = false })
    else elim e [
      | esp_ok ↦
          if env.renames && env.reopens
          then (esp_ok, adopt_schema db out nh)
          else (esp_fail, lose_file db (if env.renames then out else empty_file))
      | e' ↦ (e', record db { migrating = false })
    ]

-- Whether column `i` and those before it keep their places.
unfoldable pub is_identity : (n : ℕ) → (ℕ → Option ℕ) → Bool
is_identity zero col_map = true
is_identity (suc n) col_map =
    let rest = is_identity n col_map in
    elim (col_map n) [ none ↦ false | some j ↦ (j == n) && rest ]

-- tsdb_migrate_engine under its lock, with the new names or none in same-schema mode, and the
-- capacity of a resize.
unfoldable pub engine_locked :
    Handle
    → (new_names : Option (ℕ → Mem)) → (new_count : ℕ) → Option MigrateOpts
    → (override : Option ℕ) → EngineEnv
    → (rd_blk : Mem) → EspErr × Handle
engine_locked db new_names new_count opts override env rd_blk =
    let old_total = (db.header.num_params + db.extra_param_count) % 2 ^ 8 in
    let count : ℕ = elim new_names [ none ↦ old_total | some ns ↦ new_count ] in
    let col_map : ℕ → Option ℕ = elim new_names [
      | none ↦ λ i. some i
      | some ns ↦ λ i. find_column old_total 0 db (ns i)
    ] in
    let names : ℕ → Option Mem = elim new_names [
      | none ↦ λ i. get_param_name_h db i
      | some ns ↦ λ i. some (ns i)
    ] in
    let identical : Bool = elim new_names [
      | none ↦ db.extra_param_count == 0
      | some ns ↦
          (new_count == db.header.num_params)
          && (db.extra_param_count == 0)
          && is_identity new_count col_map
    ] in
    let max_changes : Bool = elim override [
      | none ↦ false
      | some m ↦ not (m == db.header.max_records)
    ] in
    if identical && not max_changes
    then (esp_ok, db)
    else elim (make_plan db.header count override opts) [
      | none ↦ (err_no_mem, db)
      | some p ↦ run_plan db p names col_map env rd_blk
    ]

-- tsdb_migrate_engine
unfoldable pub migrate_engine :
    (seen : Handle) (got : Option Handle)
    → (new_names : Option (ℕ → Mem)) → (new_count : ℕ) → Option MigrateOpts
    → (override : Option ℕ) → EngineEnv
    → (rd_blk : Mem) → EspErr × Handle
migrate_engine seen got new_names new_count opts override env rd_blk = elim (lock_open seen got) [
  | refused e db ↦ (e, db)
  | held db ↦ engine_locked db new_names new_count opts override env rd_blk
]

-- tsdb_migrate_schema_h
unfoldable pub migrate_schema_h :
    (seen : Handle) (got : Option Handle)
    → (new_names : Option (ℕ → Mem)) → (new_count : ℕ) → Option MigrateOpts
    → EngineEnv
    → (rd_blk : Mem) → EspErr × Handle
migrate_schema_h seen got none new_count opts env rd_blk =
    (if seen.is_open then err_invalid_arg else err_invalid_state, seen)
migrate_schema_h seen got (some ns) new_count opts env rd_blk =
    if not seen.is_open
    then (err_invalid_state, seen)
    else if new_count == 0 || ltb max_params new_count
    then (err_invalid_arg, seen)
    else migrate_engine seen got (some ns) new_count opts none env rd_blk
