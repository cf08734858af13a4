-- ===== src/Format.antt =====
-- The file format of include/esp_tsdb.h: constants, the header struct, and the fields of a raw block.
pub mod Codec
use esp_tsdb.Prelude.{ℕ, ◌+◌, ◌*◌, ◌%◌, ◌^◌}
use esp_tsdb.Bytes.{Mem, get16, get32, put16, put32}

-- `esp_err_t`, as far as the library uses it.
pub data EspErr : Type 0 where
  esp_ok esp_fail err_invalid_arg err_invalid_state err_not_found err_no_mem err_timeout : EspErr

abbrev pub u32 : ℕ
u32 = 2 ^ 32

-- uint32_t addition
abbrev pub add32 : ℕ → ℕ → ℕ
add32 a b = (a + b) % u32

abbrev pub max_params : ℕ
max_params = 64

abbrev pub magic : ℕ
magic = 0x45545344

abbrev pub version_v3 : ℕ
version_v3 = 3

abbrev pub version_wide : ℕ
version_wide = 4

abbrev pub block_size : ℕ
block_size = 1024

abbrev pub v4_ext_names_offset : ℕ
v4_ext_names_offset = 584

abbrev pub v4_index_offset : ℕ
v4_index_offset = 2048

abbrev pub max_extra_params : ℕ
max_extra_params = 48

abbrev pub overflow_header_size : ℕ
overflow_header_size = 1024

-- "BLKT"
abbrev pub blkt : ℕ
blkt = 0x424C4B54

-- `tsdb_header_t`. The names are its 512 bytes of text.
pub record Header : Type 0 where
  pub magic_word : ℕ
  pub version : ℕ
  pub num_params : ℕ
  pub param_size : ℕ
  pub record_size : ℕ
  pub records_per_block : ℕ
  pub max_records : ℕ
  pub total_records : ℕ
  pub oldest_record_idx : ℕ
  pub newest_record_idx : ℕ
  pub oldest_timestamp : ℕ
  pub newest_timestamp : ℕ
  pub index_offset : ℕ
  pub index_entries : ℕ
  pub index_stride : ℕ
  pub total_writes : ℕ
  pub total_evictions : ℕ
  pub param_names : Mem
  pub base_params : ℕ
  pub extra_param_count : ℕ
  pub overflow_record_size : ℕ
  pub overflow_offset : ℕ
  pub first_overflow_record_idx : ℕ
  pub reserved2 : ℕ

-- sizeof(tsdb_header_t)
abbrev pub header_size : ℕ
header_size = 584

-- The `TSDB_BLOCK_*` macros, for loads and for stores.
unfoldable pub block_magic : Mem → ℕ
block_magic buf = get32 buf 0

unfoldable pub block_count : Mem → ℕ
block_count buf = get16 buf 4

abbrev pub ts_pos : ℕ → ℕ
ts_pos rec = 8 + rec * 4

unfoldable pub param_pos : ℕ → ℕ → ℕ → ℕ
param_pos rpb p rec = 8 + rpb * 4 + p * rpb * 2 + rec * 2

unfoldable pub block_ts : Mem → ℕ → ℕ
block_ts buf rec = get32 buf (ts_pos rec)

unfoldable pub block_param : Mem → ℕ → ℕ → ℕ → ℕ
block_param buf rpb p rec = get16 buf (param_pos rpb p rec)

unfoldable pub set_block_magic : Mem → ℕ → Mem
set_block_magic buf v = put32 buf 0 v

unfoldable pub set_block_count : Mem → ℕ → Mem
set_block_count buf v = put16 buf 4 v

unfoldable pub set_block_ts : Mem → ℕ → ℕ → Mem
set_block_ts buf rec v = put32 buf (ts_pos rec) v

unfoldable pub set_block_param : Mem → ℕ → ℕ → ℕ → ℕ → Mem
set_block_param buf rpb p rec v = put16 buf (param_pos rpb p rec) v

-- tsdb_calc_block_offset, in uint32_t arithmetic.
unfoldable pub data_offset : Header → ℕ
data_offset h = add32 h.index_offset (h.index_entries * 8)

unfoldable pub calc_block_offset : Header → ℕ → ℕ
unfolding data_offset
calc_block_offset h block_num = add32 (data_offset h) (block_num * block_size)
