-- ===== src/Header/Sane.antt =====
-- What tsdb_header_is_sane of src/tsdb_core.c lets through.
use native.Mathlib.Nat.{le-div_iff_mul-le}
use esp_tsdb.Prelude.{ℕ, ◌+◌, ◌-◌, ◌*◌, ◌/◌, ◌≤◌, ◌<◌, ◌≡◌, arith, Bool, true, ◌&&◌}
use esp_tsdb.Format.{Header, u32}
use esp_tsdb.Header.{
  expected_record_size, sane_params, sane_geometry, sane_index, sane_counts, sane_overflow,
  header_is_sane,
}

-- A header that the block arithmetic can work with.
pub record IsPlausible (h : Header) : Type 0 where
  pub params : (0 < h.num_params) × (h.num_params ≤ 64)
  pub rpb_pos : 0 < h.records_per_block
  pub fits : 8 + h.records_per_block * (4 + h.num_params * 2) ≤ 1024
  pub stride_pos : 0 < h.index_stride
  pub data_offset : (512 ≤ h.index_offset) × (h.index_offset + h.index_entries * 8 < u32)

params_lem : (h : Header) → sane_params h ≡ true → (0 < h.num_params) × (h.num_params ≤ 64)
unfolding sane_params
params_lem h e = ground arith

geometry_lem :
    (h : Header)
    → sane_geometry h ≡ true
    → (0 < h.records_per_block)
      × (h.records_per_block ≤ (1024 - 8) / expected_record_size h.num_params)
unfolding sane_geometry
geometry_lem h e = ground arith

index_lem :
    (h : Header)
    → sane_index h ≡ true
    → (512 ≤ h.index_offset)
      × (h.index_offset ≤ 65536)
      × (h.index_entries ≤ 1048576)
      × (0 < h.index_stride)
unfolding sane_index
index_lem h e = ground arith

parts : (a b c d e : Bool) → (a && b && c && d && e) ≡ true → (a ≡ true) × (b ≡ true) × (c ≡ true)
parts a b c d e h = ground arith

expected_lem : (n : ℕ) → n ≤ 64 → expected_record_size n ≡ 4 + n * 2
expected_lem n le = omega arith

block_fits :
    (k n : ℕ) → n ≤ 64 → k ≤ (1024 - 8) / expected_record_size n → 8 + k * (4 + n * 2) ≤ 1024
block_fits k n small le =
    let e = expected_lem n small in
    let le' : k ≤ (1024 - 8) / (4 + n * 2) = rw (← e) le in
    let pos : 0 < 4 + n * 2 = omega arith in
    let m = (le-div_iff_mul-le pos).0 le' in
    let m' : k * (4 + n * 2) ≤ 1016 = m in add_eight (k * (4 + n * 2)) m'
  where
    add_eight : (x : ℕ) → x ≤ 1016 → 8 + x ≤ 1024
    add_eight x l = omega arith

-- A header that passes tsdb_header_is_sane has 1 to 64 parameters, blocks with room for all their
-- records, no zero that the code divides by, and a data region whose start does not wrap.
pub header_is_sane-IsPlausible : (h : Header) → header_is_sane h ≡ true → IsPlausible h
unfolding header_is_sane
header_is_sane-IsPlausible h e =
    let (p, g, i) =
      parts (sane_params h) (sane_geometry h) (sane_index h) (sane_counts h) (sane_overflow h) e in
    let (np_pos, np_le) = params_lem h p in
    let (rpb_pos, rpb_le) = geometry_lem h g in
    let (io_lo, io_hi, ie, st) = index_lem h i in
    record {
      params = (np_pos, np_le);
      rpb_pos = rpb_pos;
      fits = block_fits h.records_per_block h.num_params np_le rpb_le;
      stride_pos = st;
      data_offset = (io_lo, omega arith);
    }
