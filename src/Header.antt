-- ===== src/Header.antt =====
-- The header functions of src/tsdb_core.c: reading and writing it in the file, and the plausibility
-- check on open.
pub mod Sane
pub mod Stored
use esp_tsdb.Prelude.{
  ℕ, ◌+◌, ◌-◌, ◌*◌, ◌/◌, ◌%◌, ◌^◌, Bool, true, false, not, ◌&&◌, ◌||◌, ltb, leb, ◌==◌,
  if◌then◌else◌, Option, none, some,
}
use esp_tsdb.Format.{
  Header, EspErr, esp_ok, esp_fail, max_params, version_wide, block_size, header_size, u32,
}
use esp_tsdb.Format.Codec.{encode, decode}
use esp_tsdb.Storage.{File, Outcome, is_done, read_item, write_item}

-- tsdb_read_header: `none` is ESP_FAIL.
unfoldable pub read_header : File → Option Header
unfolding decode
read_header f = elim (read_item f 0 header_size) [ none ↦ none | some m ↦ some (decode m) ]

-- tsdb_write_header
unfoldable pub write_header : File → Header → Outcome → EspErr × File
unfolding encode
write_header f h o =
    (if is_done o then esp_ok else esp_fail, write_item f 0 header_size (encode h) o)

-- 4 + num_params * 2, as a uint16_t
abbrev pub expected_record_size : ℕ → ℕ
expected_record_size num_params = (4 + num_params * 2) % 2 ^ 16

unfoldable pub sane_params : Header → Bool
sane_params h =
    not (h.num_params == 0)
    && leb h.num_params max_params
    && (leb h.num_params 16 || leb version_wide h.version)
    && (h.base_params == 0 || leb h.base_params h.num_params)
    && (h.param_size == 0 || h.param_size == 2)

unfoldable pub sane_geometry : Header → Bool
sane_geometry h =
    let expected_rs = expected_record_size h.num_params in
    let max_rpb = (block_size - 8) / expected_rs in
    (h.record_size == 0 || h.record_size == expected_rs)
    && not (h.records_per_block == 0)
    && leb h.records_per_block max_rpb

unfoldable pub sane_index : Header → Bool
sane_index h =
    leb 512 h.index_offset
    && leb h.index_offset 0x10000
    && leb h.index_entries 0x100000
    && not (h.index_stride == 0)

unfoldable pub sane_counts : Header → Bool
sane_counts h =
    leb h.max_records 100000000
    && (h.max_records == 0 || leb h.total_records (h.max_records * 2 % u32))

unfoldable pub sane_overflow : Header → Bool
sane_overflow h =
    h.extra_param_count == 0
    || leb h.extra_param_count 48
      && not (h.overflow_record_size == 0)
      && leb h.overflow_record_size block_size

-- tsdb_header_is_sane, its early returns in their order.
unfoldable pub header_is_sane : Header → Bool
header_is_sane h =
    sane_params h && sane_geometry h && sane_index h && sane_counts h && sane_overflow h
