-- ===== src/Reconstruct/Exact.antt =====
-- The header of tsdb_reconstruct_header against the records in the blocks.
use mathlib.Core.Path.{subst}
use esp_tsdb.Prelude.{ℕ, ◌-◌, ◌≤◌, ◌<◌, ◌≡◌, sym}
use esp_tsdb.Format.{Header}
use esp_tsdb.Storage.{File}
use esp_tsdb.Config.{Config}
use esp_tsdb.Reconstruct.{Scan, empty_scan, scan_blocks}
use esp_tsdb.Reconstruct.Bounds.{Covers, HasRecord, zero_plus, scan_blocks-Covers}
use esp_tsdb.Reconstruct.Seen.{records_from, IsRecord}

-- The header `h` says what the first `n` blocks of the file have, under the geometry of `p`: it counts
-- their records, no record is older than its oldest timestamp or newer than its newest, and each of
-- the two is that of the record whose number it gives.
pub record IsExact (f : File) (p : Header) (data_offset n : ℕ) (h : Header) : Type 0 where
  pub count : h.total_records ≡ records_from n 0 f p data_offset
  pub writes : h.total_writes ≡ h.total_records
  pub evictions : h.total_evictions ≡ h.total_records - p.max_records
  pub none_older : (b i ts : ℕ) → b < n → HasRecord f p data_offset b i ts → h.oldest_timestamp ≤ ts
  pub none_newer : (b i ts : ℕ) → b < n → HasRecord f p data_offset b i ts → ts ≤ h.newest_timestamp
  pub oldest : IsRecord f p data_offset n h.oldest_record_idx h.oldest_timestamp
  pub newest : IsRecord f p data_offset n h.newest_record_idx h.newest_timestamp

module _ (f : File) (p : Header) (data_offset n : ℕ) where
  abbrev whole_scan : Scan
  whole_scan = scan_blocks n 0 f p data_offset empty_scan

  covers : (b i ts : ℕ) → b < n → HasRecord f p data_offset b i ts → Covers whole_scan ts
  covers b i ts lt r =
      scan_blocks-Covers f p data_offset n 0 b i ts empty_scan lt
        (subst (λ x. HasRecord f p data_offset x i ts) (sym (zero_plus b)) r)
