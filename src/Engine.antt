-- ===== src/Engine.antt =====
-- Section 2 of tsdb_migrate_engine of src/tsdb_migrate.c: the new geometry and the records that
-- stay. The progress callback of the copy is left out: it only reports.
pub mod Plans
pub mod Build
pub mod Run
pub mod Failed
pub mod Content
pub mod Copies
pub mod Loop
pub mod Rebuilt
use esp_tsdb.Prelude.{
  ℕ, zero, suc, ◌+◌, ◌-◌, ◌*◌, ◌/◌, ◌%◌, ◌^◌, Bool, true, false, not, ◌&&◌, ◌||◌, ltb, leb, ◌==◌,
  if◌then◌else◌, Option, none, some,
}
use esp_tsdb.Bytes.{Mem, zeros}
use esp_tsdb.Format.{
  Header, EspErr, esp_ok, esp_fail, err_no_mem, err_invalid_arg, err_invalid_state, max_params,
  magic, u32, add32, version_v3, version_wide, block_size, header_size, v4_ext_names_offset,
  v4_index_offset, set_block_ts, set_block_count,
}
use esp_tsdb.Format.Codec.{encode, decode}
use esp_tsdb.Storage.{File, empty_file, Outcome, is_done, write_item}
use esp_tsdb.Handle.{Handle, Locked, held, refused, lock_open}
use esp_tsdb.Write.{Values, new_block, put_params, block_status}
use esp_tsdb.Query.{available_records}
use esp_tsdb.Fold.{entry_bytes}
use esp_tsdb.Names.{ext_name_len, terminate, get_param_name_h, find_column}
use esp_tsdb.Migrate.{Cache, migrate_read_record}

-- `tsdb_migrate_opts_t`
pub record MigrateOpts : Type 0 where
  pub free_space_bytes : ℕ
  pub allow_trim : Bool

-- The new geometry, and how many of the newest records stay.
pub record Plan : Type 0 where
  pub count : ℕ
  pub index_offset : ℕ
  pub rpb : ℕ
  pub retain : ℕ
  pub max : ℕ
  pub index_entries : ℕ

-- migrate_file_size
unfoldable pub migrate_file_size : (index_offset rpb index_entries n_records : ℕ) → ℕ
migrate_file_size index_offset rpb index_entries n_records =
    let blocks = if rpb == 0 then 0 else (n_records + rpb - 1) % u32 / rpb in
    (index_offset + index_entries * 8 + blocks * block_size) % u32

unfoldable pub plan_size : Plan → ℕ
plan_size p = migrate_file_size p.index_offset p.rpb p.index_entries p.retain

-- The plan before the budget. `override` is the capacity of a resize.
unfoldable pub base_plan : Header → (count : ℕ) → (override : Option ℕ) → Plan
base_plan h count override =
    let max : ℕ = elim override [ none ↦ h.max_records | some m ↦ m ] in
    let available = available_records h in
    record {
      count = count;
      index_offset = if ltb 16 count then v4_index_offset else 1024;
      rpb = (block_size - 8) / (4 + count * 2);
      retain = if ltb 0 max && ltb max available then max else available;
      max = max;
      index_entries = if ltb 0 max then add32 (max / h.index_stride) 1 else 256;
    }

-- The caller's free space less TSDB_MIGRATE_FS_RESERVE_PCT.
unfoldable pub budget_of : ℕ → ℕ
budget_of free_space = free_space - free_space / 100 * 5

-- The records that fit the budget beside the header and the index.
unfoldable pub fitting : Plan → (budget : ℕ) → ℕ
fitting p budget =
    let fixed = add32 p.index_offset (p.index_entries * 8) in
    (if ltb fixed budget then (budget - fixed) / block_size else 0) * p.rpb % u32

-- Keep the newest `fit` records; the ring must not outgrow the space.
unfoldable pub trim_to : Plan → (stride fit : ℕ) → Plan
trim_to p stride fit =
    if p.max == 0 || ltb fit p.max
    then record p { retain = fit; max = fit; index_entries = add32 (fit / stride) 1 }
    else record p { retain = fit }

-- The plan that fits the budget. `none` is ESP_ERR_NO_MEM.
unfoldable pub fit_plan : Plan → (stride budget : ℕ) → (allow_trim : Bool) → Option Plan
fit_plan p stride budget allow_trim =
    let fit = fitting p budget in
    if leb (plan_size p) budget
    then some p
    else if not allow_trim
    then none
    else if fit == 0
    then none
    else if ltb fit p.retain
    then some (trim_to p stride fit)
    else some p

-- Section 2 of the engine.
unfoldable pub make_plan :
    Header → (count : ℕ) → (override : Option ℕ) → Option MigrateOpts → Option Plan
make_plan h count override none = some (base_plan h count override)
make_plan h count override (some opts) =
    let p = base_plan h count override in
    if ltb 0 opts.free_space_bytes
    then fit_plan p h.index_stride (budget_of opts.free_space_bytes) opts.allow_trim
    else some p
