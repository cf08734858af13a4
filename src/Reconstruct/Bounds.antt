-- ===== src/Reconstruct/Bounds.antt =====
-- What the scan of tsdb_reconstruct_header finds.
use mathlib.Core.Path.{subst}
use esp_tsdb.Prelude.{
  ℕ, zero, suc, ◌+◌, ◌*◌, ◌≤◌, ◌<◌, ◌≡◌, ◌≢◌, refl, arith, ◌∙◌, sym, ap, false, Bool-cases, inl,
  inr, ltb, ◌==◌, not, ◌||◌, if◌then◌else◌, Option, none, some,
}
use esp_tsdb.Bytes.{Mem}
use esp_tsdb.Format.{Header, add32, blkt, block_size, block_magic, block_count, block_ts}
use esp_tsdb.Storage.{File, read_item}
use esp_tsdb.Config.{Config}
use esp_tsdb.Reconstruct.{
  Scan, scan_record, scan_records, scan_block, scan_blocks, scanned_header, probed_header,
}

-- A later scan has seen no less.
record Widens (s t : Scan) : Type 0 where
  oldest : t.oldest_ts ≤ s.oldest_ts
  newest : s.newest_ts ≤ t.newest_ts
  total : s.total_records ≤ t.total_records

-- A scan that has seen a record at the time `ts`.
pub record Covers (s : Scan) (ts : ℕ) : Type 0 where
  pub oldest : s.oldest_ts ≤ ts
  pub newest : ts ≤ s.newest_ts
  pub total : 0 < s.total_records

Widens-refl : (s : Scan) → Widens s s
Widens-refl s = record { oldest = omega arith; newest = omega arith; total = omega arith }

Widens-trans : {s t u : Scan} → Widens s t → Widens t u → Widens s u
Widens-trans a b = record {
  oldest = omega (arith, a.oldest, b.oldest);
  newest = omega (arith, a.newest, b.newest);
  total = omega (arith, a.total, b.total);
}

Covers-Widens : {s t : Scan} (ts : ℕ) → Widens s t → Covers s ts → Covers t ts
Covers-Widens ts w c = record {
  oldest = omega (arith, w.oldest, c.oldest);
  newest = omega (arith, w.newest, c.newest);
  total = omega (arith, w.total, c.total);
}

scan_record-Widens : (s : Scan) (ts idx : ℕ) → Widens s (scan_record s ts idx)
unfolding scan_record
scan_record-Widens s ts idx = record {
  oldest = ground arith;
  newest = ground arith;
  total = ground arith;
}

scan_record-Covers : (s : Scan) (ts idx : ℕ) → ts ≢ 0 → Covers (scan_record s ts idx) ts
unfolding scan_record
scan_record-Covers s ts idx ne = record {
  oldest = ground arith;
  newest = ground arith;
  total = ground arith;
}

module _ (blk : Mem) (first : ℕ) where
  scan_records-Widens : (n i : ℕ) (s : Scan) → Widens s (scan_records n i blk first s)
  unfolding scan_records
  scan_records-Widens zero i s = Widens-refl s
  scan_records-Widens (suc n) i s =
      Widens-trans (scan_record-Widens s (block_ts blk i) (first + i))
        (scan_records-Widens n (i + 1) (scan_record s (block_ts blk i) (first + i)))

  scan_records-Covers :
      (n i j : ℕ) (s : Scan)
      → j < n
      → block_ts blk (i + j) ≢ 0
      → Covers (scan_records n i blk first s) (block_ts blk (i + j))
  unfolding scan_records
  scan_records-Covers zero i j s lt ne = absurd (omega arith)
  scan_records-Covers (suc n) i zero s lt ne =
      let z : i + 0 ≡ i = omega arith in
      let ne' : block_ts blk i ≢ 0 = λ e. ne (ap (block_ts blk) z ∙ e) in
      rw z (
        Covers-Widens (block_ts blk i)
          (scan_records-Widens n (i + 1) (scan_record s (block_ts blk i) (first + i)))
          (scan_record-Covers s (block_ts blk i) (first + i) ne'))
  scan_records-Covers (suc n) i (suc j) s lt ne =
      let z : i + suc j ≡ i + 1 + j = omega arith in
      rw z (scan_records-Covers n (i + 1) j _ (omega arith) (λ e. ne (ap (block_ts blk) z ∙ e)))

-- Record `i` of block `b`, which the scan is to find.
pub record HasRecord (f : File) (h : Header) (data_offset b i ts : ℕ) : Type 0 where
  pub blk : Mem
  pub read : read_item f (add32 data_offset (b * block_size)) block_size ≡ some blk
  pub tagged : block_magic blk ≡ blkt
  pub counted : i < block_count blk
  pub in_block : i < h.records_per_block
  pub stamped : block_ts blk i ≡ ts
  pub nonzero : ts ≢ 0

abbrev pub in_use : Header → Mem → ℕ
in_use h blk =
    if ltb (block_count blk) h.records_per_block then block_count blk else h.records_per_block

in_use-lt :
    (h : Header) (blk : Mem) (i : ℕ)
    → i < block_count blk
    → i < h.records_per_block
    → i < in_use h blk
in_use-lt h blk i a b = ground arith

pub zero_plus : (i : ℕ) → 0 + i ≡ i
zero_plus i = omega arith

module _ (f : File) (h : Header) (data_offset : ℕ) where
  abbrev block_at : ℕ → Option Mem
  block_at b = read_item f (add32 data_offset (b * block_size)) block_size

  scan_block-Widens : (b : ℕ) (s : Scan) → Widens s (scan_block f h data_offset b s)
  unfolding scan_block
  scan_block-Widens b s = go (block_at b) refl
    where
      go : (o : Option Mem) → block_at b ≡ o → Widens s (scan_block f h data_offset b s)
      go none e = rw (e, scan_block) (Widens-refl s)
      go (some blk) e = elim (Bool-cases (not (block_magic blk == blkt) || block_count blk == 0)) [
        | inl t ↦ rw (e, scan_block, t) (Widens-refl s)
        | inr t ↦
            rw (e, scan_block, t)
              (scan_records-Widens blk (b * h.records_per_block) (in_use h blk) 0 s)
      ]

  scan_block-Covers :
      (b i ts : ℕ) (s : Scan)
      → HasRecord f h data_offset b i ts
      → Covers (scan_block f h data_offset b s) ts
  unfolding scan_block
  scan_block-Covers b i ts s r =
      let t : (not (block_magic r.blk == blkt) || block_count r.blk == 0) ≡ false =
        ground (arith, r.tagged, r.counted) in
      let e = r.read in
      let at : block_ts r.blk (0 + i) ≡ ts = ap (block_ts r.blk) (zero_plus i) ∙ r.stamped in
      rw (e, scan_block, t)
        (subst (λ x. Covers (scan_records (in_use h r.blk) 0 r.blk (b * h.records_per_block) s) x)
          at
          (scan_records-Covers r.blk (b * h.records_per_block) (in_use h r.blk) 0 i s
            (in_use-lt h r.blk i r.counted r.in_block) (λ z. r.nonzero (sym at ∙ z))))

  scan_blocks-Widens : (n b : ℕ) (s : Scan) → Widens s (scan_blocks n b f h data_offset s)
  unfolding scan_blocks
  scan_blocks-Widens zero b s = Widens-refl s
  scan_blocks-Widens (suc n) b s =
      Widens-trans (scan_block-Widens b s)
        (scan_blocks-Widens n (b + 1) (scan_block f h data_offset b s))

  pub scan_blocks-Covers :
      (n b j i ts : ℕ) (s : Scan)
      → j < n
      → HasRecord f h data_offset (b + j) i ts
      → Covers (scan_blocks n b f h data_offset s) ts
  unfolding scan_blocks
  scan_blocks-Covers zero b j i ts s lt r = absurd (omega arith)
  scan_blocks-Covers (suc n) b zero i ts s lt r =
      let z : b + 0 ≡ b = omega arith in
      Covers-Widens ts (scan_blocks-Widens n (b + 1) (scan_block f h data_offset b s))
        (scan_block-Covers b i ts s (subst (λ x. HasRecord f h data_offset x i ts) z r))
  scan_blocks-Covers (suc n) b (suc j) i ts s lt r =
      let z : b + suc j ≡ b + 1 + j = omega arith in
      scan_blocks-Covers n (b + 1) j i ts _ (omega arith)
        (subst (λ x. HasRecord f h data_offset x i ts) z r)

-- Where the data region starts under the header that the probe gives.
abbrev pub probed_start : File → Config → ℕ
probed_start f c = add32 (probed_header f c).index_offset ((probed_header f c).index_entries * 8)

pub scanned-geometry :
    (h : Header) (s : Scan)
    → ((scanned_header h s).records_per_block ≡ h.records_per_block)
      × ((scanned_header h s).index_offset ≡ h.index_offset)
      × ((scanned_header h s).index_entries ≡ h.index_entries)
unfolding scanned_header
scanned-geometry h s = (ground arith, ground arith, ground arith)
