-- ===== src/Reconstruct/Seen.antt =====
-- What the scan of tsdb_reconstruct_header counts, and the records that it picks.
use mathlib.Core.Path.{subst}
use esp_tsdb.Prelude.{
  ℕ, zero, suc, ◌+◌, ◌-◌, ◌*◌, ◌≤◌, ◌<◌, ◌≡◌, ◌≢◌, ◌⊎◌, refl, arith, ◌∙◌, sym, ap, true, false,
  Bool-cases, inl, inr, ltb, ◌==◌, not, ◌||◌, if◌then◌else◌, Option, none, some,
}
use esp_tsdb.Bytes.{Mem}
use esp_tsdb.Format.{Header, u32, add32, blkt, block_size, block_magic, block_count, block_ts}
use esp_tsdb.Storage.{File, read_item}
use esp_tsdb.Reconstruct.{Scan, scan_record, scan_records, scan_block, scan_blocks}
use esp_tsdb.Reconstruct.Bounds.{HasRecord, in_use}

-- How many of the `n` timestamps of a block from the `i`-th on are not 0.
unfoldable pub stamps : (n i : ℕ) → Mem → ℕ
stamps zero i blk = 0
stamps (suc n) i blk = (if block_ts blk i == 0 then 0 else 1) + stamps n (i + 1) blk

-- How many records block `b` has, none when it has no tag or is not in the file in full.
unfoldable pub records_in : File → Header → (data_offset b : ℕ) → ℕ
records_in f h data_offset b = elim (read_item f (add32 data_offset (b * block_size)) block_size) [
  | none ↦ 0
  | some blk ↦ if block_magic blk == blkt then stamps (in_use h blk) 0 blk else 0
]

-- How many records the `n` blocks from `b` on have.
unfoldable pub records_from : (n b : ℕ) → File → Header → (data_offset : ℕ) → ℕ
records_from zero b f h data_offset = 0
records_from (suc n) b f h data_offset =
    records_in f h data_offset b + records_from n (b + 1) f h data_offset

scan_record-total :
    (s : Scan) (ts idx : ℕ)
    → (scan_record s ts idx).total_records ≡ s.total_records + (if ts == 0 then 0 else 1)
unfolding scan_record
scan_record-total s ts idx = ground arith

scan_records-total :
    (n i : ℕ) (blk : Mem) (first : ℕ) (s : Scan)
    → (scan_records n i blk first s).total_records ≡ s.total_records + stamps n i blk
unfolding scan_records stamps
scan_records-total zero i blk first s = omega arith
scan_records-total (suc n) i blk first s = omega (
  arith,
  scan_records-total n (i + 1) blk first (scan_record s (block_ts blk i) (first + i)),
  scan_record-total s (block_ts blk i) (first + i),
)

-- A scan whose oldest and newest record are records of the relation `At`, once it has seen one.
pub record Attained (At : ℕ → ℕ → Type 0) (s : Scan) : Type 0 where
  pub oldest : (s.oldest_ts ≡ u32 - 1) ⊎ At s.oldest_idx s.oldest_ts
  pub newest : (s.newest_ts ≡ 0) ⊎ At s.newest_idx s.newest_ts

module _ (At : ℕ → ℕ → Type 0) where
  scan_record-Attained :
      (s : Scan) (ts idx : ℕ)
      → (ts ≢ 0 → At idx ts)
      → Attained At s
      → Attained At (scan_record s ts idx)
  unfolding scan_record
  scan_record-Attained s ts idx at a = elim (Bool-cases (ts == 0)) [
    | inl e ↦ rw (e, scan_record) a
    | inr e ↦
        let here : At idx ts = at (λ z. ground arith) in
        rw (e, scan_record)
          (record {
            oldest = elim (Bool-cases (ltb ts s.oldest_ts)) [
              | inl t ↦ rw t (inr here)
              | inr t ↦ rw t a.oldest
            ];
            newest = elim (Bool-cases (ltb s.newest_ts ts)) [
              | inl t ↦ rw t (inr here)
              | inr t ↦ rw t a.newest
            ];
          })
  ]

  scan_records-Attained :
      (n i : ℕ) (blk : Mem) (first : ℕ) (s : Scan)
      → ((k : ℕ) → k < i + n → block_ts blk k ≢ 0 → At (first + k) (block_ts blk k))
      → Attained At s
      → Attained At (scan_records n i blk first s)
  unfolding scan_records
  scan_records-Attained zero i blk first s at a = a
  scan_records-Attained (suc n) i blk first s at a =
      scan_records-Attained n (i + 1) blk first (scan_record s (block_ts blk i) (first + i))
        (λ k lt. at k (omega arith))
        (scan_record-Attained s (block_ts blk i) (first + i) (at i (omega arith)) a)

-- Record number `idx` of the first `n` blocks, at the time `ts`.
pub record IsRecord (f : File) (h : Header) (data_offset n idx ts : ℕ) : Type 0 where
  pub b : ℕ
  pub i : ℕ
  pub in_region : b < n
  pub has : HasRecord f h data_offset b i ts
  pub number : idx ≡ b * h.records_per_block + i

in_use-parts :
    (h : Header) (blk : Mem) (i : ℕ)
    → i < in_use h blk
    → (i < block_count blk) × (i < h.records_per_block)
in_use-parts h blk i lt = ground arith

module _ (f : File) (h : Header) (data_offset : ℕ) where
  abbrev block_at : ℕ → Option Mem
  block_at b = read_item f (add32 data_offset (b * block_size)) block_size

  -- A block that is scanned, and one that is skipped.
  data Seen (b : ℕ) (s t : Scan) : Type 0 where
    seen :
        (blk : Mem)
        → block_at b ≡ some blk
        → block_magic blk ≡ blkt
        → t ≡ scan_records (in_use h blk) 0 blk (b * h.records_per_block) s
        → records_in f h data_offset b ≡ stamps (in_use h blk) 0 blk
        → Seen b s t
    skipped : t ≡ s → records_in f h data_offset b ≡ 0 → Seen b s t

  tag_lem :
      (blk : Mem)
      → (not (block_magic blk == blkt) || block_count blk == 0) ≡ false
      → block_magic blk ≡ blkt
  tag_lem blk e = ground arith

  empty_lem :
      (blk : Mem)
      → (not (block_magic blk == blkt) || block_count blk == 0) ≡ true
      → (if block_magic blk == blkt then stamps (in_use h blk) 0 blk else 0) ≡ 0
  unfolding stamps
  empty_lem blk e = elim (Bool-cases (block_magic blk == blkt)) [
    | inr t ↦ rw t refl
    | inl t ↦
        let z : in_use h blk ≡ 0 = ground arith in
        rw t (subst (λ n. stamps n 0 blk ≡ 0) (sym z) refl)
  ]

  scan_block-Seen : (b : ℕ) (s : Scan) → Seen b s (scan_block f h data_offset b s)
  unfolding scan_block records_in
  scan_block-Seen b s = go (block_at b) refl
    where
      go : (o : Option Mem) → block_at b ≡ o → Seen b s (scan_block f h data_offset b s)
      go none e = skipped (rw (e, scan_block) refl) (rw (e, records_in) refl)
      go (some blk) e = elim (Bool-cases (not (block_magic blk == blkt) || block_count blk == 0)) [
        | inl t ↦ skipped (rw (e, scan_block, t) refl) (rw (e, records_in) (empty_lem blk t))
        | inr t ↦
            let m = tag_lem blk t in
            let q : (block_magic blk == blkt) ≡ true = ground arith in
            seen blk e m (rw (e, scan_block, t) refl) (rw (e, records_in, q) refl)
      ]

  scan_block-total :
      (b : ℕ) (s : Scan)
      → (scan_block f h data_offset b s).total_records
        ≡ s.total_records + records_in f h data_offset b
  scan_block-total b s = elim (scan_block-Seen b s) [
    | seen blk e m t r ↦
        ap (λ (x : Scan). x.total_records) t
        ∙ omega (arith, scan_records-total (in_use h blk) 0 blk (b * h.records_per_block) s, r)
    | skipped t r ↦ ap (λ (x : Scan). x.total_records) t ∙ omega (arith, r)
  ]

  pub scan_blocks-total :
      (n b : ℕ) (s : Scan)
      → (scan_blocks n b f h data_offset s).total_records
        ≡ s.total_records + records_from n b f h data_offset
  unfolding scan_blocks records_from
  scan_blocks-total zero b s = omega arith
  scan_blocks-total (suc n) b s =
      omega
        (arith, scan_blocks-total n (b + 1) (scan_block f h data_offset b s), scan_block-total b s)

  scan_block-Attained :
      (n b : ℕ) (s : Scan)
      → b < n
      → Attained (IsRecord f h data_offset n) s
      → Attained (IsRecord f h data_offset n) (scan_block f h data_offset b s)
  scan_block-Attained n b s lt a = elim (scan_block-Seen b s) [
    | skipped t r ↦ subst (λ x. Attained (IsRecord f h data_offset n) x) (sym t) a
    | seen blk e m t r ↦
        subst (λ x. Attained (IsRecord f h data_offset n) x) (sym t)
          (scan_records-Attained (IsRecord f h data_offset n) (in_use h blk) 0 blk
            (b * h.records_per_block) s
            (λ k k_lt nonzero. record {
              b = b;
              i = k;
              in_region = lt;
              has = record {
                blk = blk;
                read = e;
                tagged = m;
                counted = (in_use-parts h blk k (omega arith)).0;
                in_block = (in_use-parts h blk k (omega arith)).1;
                stamped = refl;
                nonzero = nonzero;
              };
              number = refl;
            })
            a)
  ]

  pub scan_blocks-Attained :
      (total n b : ℕ) (s : Scan)
      → b + n ≤ total
      → Attained (IsRecord f h data_offset total) s
      → Attained (IsRecord f h data_offset total) (scan_blocks n b f h data_offset s)
  unfolding scan_blocks
  scan_blocks-Attained total zero b s le a = a
  scan_blocks-Attained total (suc n) b s le a =
      scan_blocks-Attained total n (b + 1) (scan_block f h data_offset b s) (omega arith)
        (scan_block-Attained total b s (omega arith) a)
