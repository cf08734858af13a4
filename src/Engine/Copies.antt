-- ===== src/Engine/Copies.antt =====
-- The copy loop of tsdb_migrate_engine of src/tsdb_migrate.c keeps the rows it has copied.

use native.Mathlib.Decide.{ℕ_discrete, dec_lt}
use native.Mathlib.Nat.{div-eq_of_lt-le, div-mul-le_self, le-div_iff_mul-le, div-add-mod', mod-lt}
use esp_tsdb.Prelude.{
  ℕ, ◌+◌, ◌-◌, ◌*◌, ◌/◌, ◌%◌, ◌^◌, ◌≤◌, ◌<◌, ◌≡◌, ◌≢◌, ◌⊎◌, inl, inr, refl, arith, ◌∙◌, ap, Bool,
  true, false, ltb, ◌&&◌, ◌||◌, Bool-cases, ◌==◌,
}
use esp_tsdb.Bytes.{get32}
use esp_tsdb.Format.{Header, esp_ok, u32, add32, blkt, block_size}
use esp_tsdb.Storage.{File, Outcome, done, write_item}
use esp_tsdb.Write.{Values, new_block, block_status}
use esp_tsdb.Ring.{Row, Holds, IsGeometry, block_start, data_start}
use esp_tsdb.Ring.Frame.{offset_lt, new_block-magic}
use esp_tsdb.Migrate.{Cache}
use esp_tsdb.Fold.{entry_bytes}
use esp_tsdb.Engine.Build.{Copy, put_entry, stamp_header, place_row, flush_block, copy_record}
use esp_tsdb.Engine.Content.{
  HasRow, placed, placed-tag, placed-new, placed-old, HasRow-Holds, Holds-flushed, Holds-below,
}

-- What the copy does not change of the new header.
pub record SameLayout (g h : Header) : Type 0 where
  pub rpb : g.records_per_block ≡ h.records_per_block
  pub np : g.num_params ≡ h.num_params
  pub io : g.index_offset ≡ h.index_offset
  pub ie : g.index_entries ≡ h.index_entries
  pub max : g.max_records ≡ h.max_records

-- The copy of `w` rows: those of earlier blocks in the file, the others in the block being filled.
pub record Copied (nh : Header) (rows : ℕ → Row) (w : ℕ) (c : Copy) : Type 0 where
  pub written : c.out_written ≡ w
  pub layout : SameLayout c.header nh
  pub tagged : get32 c.wr_blk 0 ≡ blkt
  pub flushed :
      (j : ℕ) → j / nh.records_per_block < w / nh.records_per_block → Holds nh c.out j (rows j)
  pub filling :
      (j : ℕ)
      → j < w
      → j / nh.records_per_block ≡ w / nh.records_per_block
      → HasRow nh c.wr_blk (j % nh.records_per_block) (rows j)

-- All of `w` rows are in the file.
pub record Stored (nh : Header) (rows : ℕ → Row) (w : ℕ) (c : Copy) : Type 0 where
  pub written : c.out_written ≡ w
  pub layout : SameLayout c.header nh
  pub rows_there : (j : ℕ) → j < w → Holds nh c.out j (rows j)

same_block-same_slot : (s t r : ℕ) → s / r ≡ t / r → s % r ≡ t % r → s ≡ t
same_block-same_slot s t r d m = grind arith

pub div_mono : (a b d : ℕ) → 0 < d → a ≤ b → a / d ≤ b / d
div_mono a b d pos le = (le-div_iff_mul-le pos).1 (omega (arith, div-mul-le_self a d))

div_lt : (j n d : ℕ) → 0 < d → j / d < n / d → j < n
div_lt j n d pos lt = elim (dec_lt j n) [
  | yes a ↦ a
  | no b ↦ absurd (omega (arith, div_mono n j d pos (omega arith)))
]

next_block : (w r : ℕ) → 0 < r → w % r ≡ r - 1 → (w + 1) / r ≡ w / r + 1
next_block w r pos e =
    let q = div-add-mod' w r in div-eq_of_lt-le r (omega (arith, q)) (omega (arith, q))

same_block : (w r : ℕ) → 0 < r → w % r ≢ r - 1 → (w + 1) / r ≡ w / r
same_block w r pos ne =
    let q = div-add-mod' w r in
    let m = mod-lt w pos in div-eq_of_lt-le r (omega (arith, q)) (omega (arith, q, m))

put_entry-Holds :
    (h nh : Header) (w ts s : ℕ) (o : Outcome) (f : File) (row : Row)
    → SameLayout h nh
    → IsGeometry nh
    → data_start nh < u32
    → Holds nh f s row
    → Holds nh (put_entry h w ts o f) s row
unfolding put_entry
put_entry-Holds h nh w ts s o f row l g small held =
    elim (Bool-cases ((w % h.index_stride == 0) && ltb (w / h.index_stride) h.index_entries)) [
      | inl e ↦
          let lt : w / h.index_stride < h.index_entries = ground arith in
          rw e (
            Holds-below nh f _ 8 s (entry_bytes ts (w / h.records_per_block)) o row g
              (omega (arith, l.io, l.ie)) held)
      | inr e ↦ rw e held
    ]

-- The flags of copy_record.
abbrev is_full : Header → ℕ → Bool
is_full nh w = w % nh.records_per_block == nh.records_per_block - 1

flush_done :
    (c : Copy)
    → flush_block c done ≡ (
      esp_ok,
      record c {
        out =
            write_item c.out
              (add32
                (c.header.index_offset + c.header.index_entries * 8)
                ((c.out_written - 1) / c.header.records_per_block * block_size))
              block_size
              c.wr_blk
              done;
        wr_blk = new_block;
      },
    )
unfolding flush_block block_status
flush_done c = refl

-- One more row: whose conditions are those of `placed`.
module _ (nh : Header) (rows : ℕ → Row) (w : ℕ) (c : Copy) (v : Copied nh rows w c)
    (g : IsGeometry nh) (small : data_start nh < u32)
    (room : block_start nh (w / nh.records_per_block + 1) ≤ u32) (ts : ℕ) (vals : Values)
    (stamp : ts ≡ (rows w).ts) (ts_small : ts < 2 ^ 32)
    (cols : (p : ℕ) → p < nh.num_params → vals p ≡ (rows w).vals p)
    (fits : (p : ℕ) → p < nh.num_params → vals p < 2 ^ 16) (cache : Cache) (entry : Outcome) where
  abbrev c1 : Copy
  c1 = place_row c ts vals cache entry

  abbrev b : ℕ
  b = w / nh.records_per_block

  off_lt : w % nh.records_per_block < nh.records_per_block
  off_lt = offset_lt w nh.records_per_block g.rpb_pos

  place_row-wr_blk : c1.wr_blk ≡ placed nh (w % nh.records_per_block) ts vals c.wr_blk
  unfolding place_row
  place_row-wr_blk = rw (v.written, v.layout.rpb, v.layout.np) refl

  out_Holds : (j : ℕ) (row : Row) → Holds nh c.out j row → Holds nh c1.out j row
  unfolding place_row
  out_Holds j row held =
      put_entry-Holds c.header nh c.out_written ts j entry c.out row v.layout g small held

  in_block :
      (j : ℕ)
      → j < w + 1
      → j / nh.records_per_block ≡ b
      → HasRow nh c1.wr_blk (j % nh.records_per_block) (rows j)
  in_block j lt e = elim (ℕ_discrete j w) [
    | yes same ↦
        rw (place_row-wr_blk, same)
          (let n =
              placed-new nh g (w % nh.records_per_block) ts vals c.wr_blk off_lt ts_small fits in
            record { stamped = n.stamped ∙ stamp; columns = λ p k. n.columns p k ∙ cols p k })
    | no other ↦ rw place_row-wr_blk (
        placed-old nh g (w % nh.records_per_block) ts vals c.wr_blk off_lt
          (j % nh.records_per_block) (rows j) (offset_lt j nh.records_per_block g.rpb_pos)
          (λ m. other (same_block-same_slot j w nh.records_per_block e m))
          (v.filling j (omega arith) e))
  ]

  tagged : get32 c1.wr_blk 0 ≡ blkt
  tagged =
      rw place_row-wr_blk
        (placed-tag nh g (w % nh.records_per_block) ts vals c.wr_blk off_lt v.tagged)

  layout1 : SameLayout c1.header nh
  unfolding place_row stamp_header
  layout1 = record {
    rpb = v.layout.rpb;
    np = v.layout.np;
    io = v.layout.io;
    ie = v.layout.ie;
    max = v.layout.max;
  }

  written1 : c1.out_written ≡ w + 1
  unfolding place_row
  written1 = omega (arith, v.written)

  -- The copy after the block has gone to the file.
  abbrev c2 : Copy
  c2 = record c1 {
    out = write_item c1.out (block_start nh b) block_size c1.wr_blk done;
    wr_blk = new_block;
  }

  flush_lem : flush_block c1 done ≡ (esp_ok, c2)
  flush_lem =
      let back : c1.out_written - 1 ≡ w = omega (arith, written1) in
      let pos : add32 (c1.header.index_offset + c1.header.index_entries * 8)
            ((c1.out_written - 1) / c1.header.records_per_block * block_size)
          ≡ block_start nh b =
        rw (back, layout1.rpb, layout1.io, layout1.ie) (omega arith) in
      flush_done c1
      ∙ ap
          (λ o. (
            esp_ok,
            record c1 { out = write_item c1.out o block_size c1.wr_blk done; wr_blk = new_block },
          ))
          pos

  flushed_Holds : (j : ℕ) → j < w + 1 → Holds nh c2.out j (rows j)
  flushed_Holds j lt = elim (ℕ_discrete (j / nh.records_per_block) b) [
    | yes e ↦ HasRow-Holds nh g c1.out c1.wr_blk b j (rows j) e room tagged (in_block j lt e)
    | no ne ↦
        let before = div_mono j w nh.records_per_block g.rpb_pos (omega arith) in
        let less : j / nh.records_per_block < b = omega arith in
        Holds-flushed nh g c1.out c1.wr_blk b j (rows j) less
          (out_Holds j (rows j) (v.flushed j less))
  ]

  -- A block that is full goes to the file, and the copy goes on in a new one.
  after_flush : w % nh.records_per_block ≡ nh.records_per_block - 1 → Copied nh rows (w + 1) c2
  after_flush e =
      let nb = next_block w nh.records_per_block g.rpb_pos e in
      record {
        written = written1;
        layout = layout1;
        tagged = new_block-magic;
        flushed = λ j lt. flushed_Holds j (div_lt j (w + 1) nh.records_per_block g.rpb_pos lt);
        filling = λ j lt same.
            absurd (omega (arith, nb, div_mono j w nh.records_per_block g.rpb_pos (omega arith)));
      }

  last_flush : Stored nh rows (w + 1) c2
  last_flush = record { written = written1; layout = layout1; rows_there = flushed_Holds }

  no_flush : w % nh.records_per_block ≢ nh.records_per_block - 1 → Copied nh rows (w + 1) c1
  no_flush ne =
      let sb = same_block w nh.records_per_block g.rpb_pos ne in
      record {
        written = written1;
        layout = layout1;
        tagged = tagged;
        flushed = λ j lt. out_Holds j (rows j) (v.flushed j (omega (arith, sb)));
        filling = λ j lt same. in_block j lt (same ∙ sb);
      }

  copy_record-cases :
      (is_last : Bool)
      → ((w % nh.records_per_block ≡ nh.records_per_block - 1) ⊎ (is_last ≡ true))
          × (copy_record c is_last ts vals cache entry done ≡ (esp_ok, c2))
        ⊎ ((w % nh.records_per_block ≢ nh.records_per_block - 1)
            × (is_last ≡ false)
            × (copy_record c is_last ts vals cache entry done ≡ (esp_ok, c1)))
  unfolding copy_record
  copy_record-cases is_last = elim (Bool-cases (is_full c.header c.out_written || is_last)) [
    | inl e ↦ inl (full_or_last is_last (same_test ∙ e), rw e flush_lem)
    | inr e ↦ let (a, b') = neither is_last (same_test ∙ e) in inr (a, b', rw e refl)
  ]
    where
      same_test : (is_full nh w || is_last) ≡ (is_full c.header c.out_written || is_last)
      same_test = rw (v.written, v.layout.rpb) refl

      full_or_last :
          (l : Bool)
          → (is_full nh w || l) ≡ true
          → (w % nh.records_per_block ≡ nh.records_per_block - 1) ⊎ (l ≡ true)
      full_or_last l e = ground arith

      neither :
          (l : Bool)
          → (is_full nh w || l) ≡ false
          → (w % nh.records_per_block ≢ nh.records_per_block - 1) × (l ≡ false)
      neither l e = ground arith

  -- A record that is not the last.
  pub copy_record-Copied :
      (c' : Copy) × (copy_record c false ts vals cache entry done ≡ (esp_ok, c'))
      × Copied nh rows (w + 1) c'
      × (c'.cache ≡ cache)
  unfolding place_row
  copy_record-Copied = elim (copy_record-cases false) [
    | inl (inl full, e) ↦ (c2, e, after_flush full, refl)
    | inl (inr last, e) ↦ absurd (cc)
    | inr (open_, not_last, e) ↦ (c1, e, no_flush open_, refl)
  ]

  -- The last record.
  pub copy_record-Stored :
      (c' : Copy) × (copy_record c true ts vals cache entry done ≡ (esp_ok, c'))
      × Stored nh rows (w + 1) c'
  copy_record-Stored = elim (copy_record-cases true) [
    | inl (why, e) ↦ (c2, e, last_flush)
    | inr (open_, not_last, e) ↦ absurd (cc)
  ]
