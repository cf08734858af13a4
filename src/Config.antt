-- ===== src/Config.antt =====
-- `tsdb_config_t` of include/esp_tsdb.h, and the header of a new database as tsdb_open of
-- src/tsdb_core.c makes it.
use esp_tsdb.Prelude.{
  ℕ, ◌+◌, ◌-◌, ◌*◌, ◌/◌, Bool, ◌&&◌, not, ltb, leb, ◌==◌, if◌then◌else◌, Option, none, some,
}
use esp_tsdb.Bytes.{Mem, zeros}
use esp_tsdb.Format.{
  Header, add32, magic, max_params, version_v3, version_wide, block_size, v4_index_offset,
}
use esp_tsdb.Format.Codec.{decode}
use esp_tsdb.Buffer.{AllocStrategy}
use esp_tsdb.Engine.Build.{name_bytes}

-- `param_names` is the array of names, or NULL.
pub record Config : Type 0 where
  pub num_params : ℕ
  pub param_names : Option (ℕ → Option Mem)
  pub max_records : ℕ
  pub index_stride : ℕ
  pub buffer_pool_size : ℕ
  pub alloc_strategy : AllocStrategy
  pub use_paged_allocation : Bool
  pub page_size : ℕ
  pub has_free_space_cb : Bool
  pub min_free_bytes : ℕ

-- The checks at the top of tsdb_open.
unfoldable pub config_ok : Config → Bool
config_ok c =
    not (c.num_params == 0) && leb c.num_params max_params && not (c.buffer_pool_size == 0)

-- More than 16 parameters take the V4 layout.
unfoldable pub is_wide : Config → Bool
is_wide c = ltb 16 c.num_params

unfoldable pub stride_of : Config → ℕ
stride_of c = if ltb 0 c.index_stride then c.index_stride else 380

unfoldable pub rpb_of : Config → ℕ
rpb_of c = (block_size - 8) / (4 + c.num_params * 2)

-- The index entries for the capacity, or 256 for an unlimited database.
unfoldable pub entries_of : Config → ℕ
entries_of c = if ltb 0 c.max_records then add32 (c.max_records / stride_of c) 1 else 256

-- The names in the fixed header.
unfoldable pub config_names : Config → Mem
config_names c = elim c.param_names [ none ↦ zeros | some names ↦ name_bytes c.num_params names ]

-- The header of a new database.
unfoldable pub initial_header : Config → Header
initial_header c = record (decode zeros) {
  magic_word = magic;
  version = if is_wide c then version_wide else version_v3;
  num_params = c.num_params;
  base_params = c.num_params;
  param_size = 2;
  record_size = 4 + c.num_params * 2;
  records_per_block = rpb_of c;
  max_records = c.max_records;
  index_stride = stride_of c;
  index_offset = if is_wide c then v4_index_offset else 1024;
  index_entries = entries_of c;
  param_names = config_names c;
}
