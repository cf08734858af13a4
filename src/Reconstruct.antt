-- ===== src/Reconstruct.antt =====
-- tsdb_reconstruct_header of src/tsdb_core.c: a header from the data blocks.
pub mod Bounds
pub mod Seen
pub mod Exact
use esp_tsdb.Prelude.{
  ℕ, zero, suc, ◌+◌, ◌-◌, ◌*◌, ◌/◌, ◌%◌, Bool, false, ◌||◌, not, ltb, ◌==◌, if◌then◌else◌, Option,
  none, some, List, [], ◌∷◌,
}
use esp_tsdb.Bytes.{Mem, zeros, get32}
use esp_tsdb.Format.{
  Header, u32, add32, blkt, magic, version_v3, version_wide, block_size, v4_index_offset,
  block_magic, block_count, block_ts,
}
use esp_tsdb.Format.Codec.{decode}
use esp_tsdb.Storage.{File, read_item}
use esp_tsdb.Config.{Config, is_wide, stride_of, rpb_of, entries_of, config_names}

-- The numbers of index entries that are tried, and the bases of the index.
unfoldable pub candidate_entries : Config → List ℕ
candidate_entries c = entries_of c ∷ 256 ∷ 128 ∷ 138 ∷ 165 ∷ 200 ∷ 512 ∷ 1024 ∷ 2048 ∷ []

abbrev pub index_bases : List ℕ
index_bases = 512 ∷ 1024 ∷ v4_index_offset ∷ []

-- Whether a block starts where the data region would.
unfoldable pub probe_block : File → (base entries : ℕ) → Bool
probe_block f base entries =
    let off = add32 base (entries * 8) in
    if ltb (f.size % u32) (add32 off block_size)
    then false
    else elim (read_item f off 4) [ none ↦ false | some m ↦ get32 m 0 == blkt ]

-- The first candidate at a base, and the first base with one.
unfoldable pub probe_entries : File → (base : ℕ) → List ℕ → Option ℕ
probe_entries f base [] = none
probe_entries f base (e ∷ es) =
    let rest = probe_entries f base es in if probe_block f base e then some e else rest

unfoldable pub probe_bases : File → List ℕ → List ℕ → Option (ℕ × ℕ)
probe_bases f entries [] = none
probe_bases f entries (b ∷ bs) = elim (probe_entries f b entries) [
  | none ↦ probe_bases f entries bs
  | some e ↦ some (b, e)
]

-- The header up to the scan, with the geometry that the probe found.
unfoldable pub probed_header : File → Config → Header
probed_header f c =
    let h = record (decode zeros) {
      magic_word = magic;
      version = if is_wide c then version_wide else version_v3;
      num_params = c.num_params;
      param_size = 2;
      record_size = 4 + c.num_params * 2;
      records_per_block = rpb_of c;
      max_records = c.max_records;
      index_stride = stride_of c;
      index_offset = 512;
      index_entries = entries_of c;
      param_names = config_names c;
    } in
    elim (probe_bases f (candidate_entries c) index_bases) [
      | none ↦ h
      | some (b, e) ↦ record h { index_offset = b; index_entries = e }
    ]

-- The scan: the oldest and the newest timestamp with their records, and the count.
pub record Scan : Type 0 where
  pub oldest_ts : ℕ
  pub newest_ts : ℕ
  pub oldest_idx : ℕ
  pub newest_idx : ℕ
  pub total_records : ℕ

abbrev pub empty_scan : Scan
empty_scan = record {
  oldest_ts = u32 - 1;
  newest_ts = 0;
  oldest_idx = 0;
  newest_idx = 0;
  total_records = 0;
}

-- One record; a timestamp of 0 is an empty one.
unfoldable pub scan_record : Scan → (ts record_idx : ℕ) → Scan
scan_record s ts record_idx = if ts == 0 then s else record {
  oldest_ts = if ltb ts s.oldest_ts then ts else s.oldest_ts;
  newest_ts = if ltb s.newest_ts ts then ts else s.newest_ts;
  oldest_idx = if ltb ts s.oldest_ts then record_idx else s.oldest_idx;
  newest_idx = if ltb s.newest_ts ts then record_idx else s.newest_idx;
  total_records = s.total_records + 1;
}

-- The records of a block from `i` on, `n` of them; the first record of the block is `first`.
unfoldable pub scan_records : (n i : ℕ) → Mem → (first : ℕ) → Scan → Scan
scan_records zero i blk first s = s
scan_records (suc n) i blk first s =
    scan_records n (i + 1) blk first (scan_record s (block_ts blk i) (first + i))

-- One block: skipped when it cannot be read, has no tag, or has no record.
unfoldable pub scan_block : File → Header → (data_offset b : ℕ) → Scan → Scan
scan_block f h data_offset b s =
    elim (read_item f (add32 data_offset (b * block_size)) block_size) [
      | none ↦ s
      | some blk ↦
          let count = block_count blk in
          if not (block_magic blk == blkt) || count == 0
          then s
          else scan_records (if ltb count h.records_per_block then count else h.records_per_block) 0
              blk (b * h.records_per_block) s
    ]

-- The blocks from `b` on, `n` of them.
unfoldable pub scan_blocks : (n b : ℕ) → File → Header → (data_offset : ℕ) → Scan → Scan
scan_blocks zero b f h data_offset s = s
scan_blocks (suc n) b f h data_offset s =
    scan_blocks n (b + 1) f h data_offset (scan_block f h data_offset b s)

-- What the scan found, in the header.
unfoldable pub scanned_header : Header → Scan → Header
scanned_header h s = if s.total_records == 0 then h else record h {
  total_records = s.total_records;
  oldest_record_idx = s.oldest_idx;
  newest_record_idx = s.newest_idx;
  oldest_timestamp = s.oldest_ts;
  newest_timestamp = s.newest_ts;
  total_writes = s.total_records;
  total_evictions =
      if ltb h.max_records s.total_records then s.total_records - h.max_records else 0;
}

-- The number of blocks to scan, in 32-bit arithmetic.
unfoldable pub scan_count : File → (data_offset : ℕ) → ℕ
scan_count f data_offset = (f.size + u32 - data_offset) % u32 / block_size

-- tsdb_reconstruct_header: `none` is ESP_FAIL.
unfoldable pub reconstruct_header : File → Config → Option Header
reconstruct_header f c =
    let h = probed_header f c in
    let data_offset = add32 h.index_offset (h.index_entries * 8) in
    if ltb f.size 512
    then none
    else some
        (scanned_header h (scan_blocks (scan_count f data_offset) 0 f h data_offset empty_scan))
