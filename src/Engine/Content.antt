-- ===== src/Engine/Content.antt =====
-- The block that the copy of src/tsdb_migrate.c fills: its rows before and after the write.
use esp_tsdb.Prelude.{ℕ, ◌+◌, ◌*◌, ◌/◌, ◌%◌, ◌^◌, ◌≤◌, ◌<◌, ◌≡◌, ◌≢◌, arith, ◌∙◌}
use esp_tsdb.Bytes.{Mem, get16, get32, put16, le16}
use esp_tsdb.Bytes.Laws.{blit_outside, Apart}
use esp_tsdb.Format.{
  Header, u32, blkt, param_pos, block_size, set_block_count, set_block_ts, block_ts,
}
use esp_tsdb.Storage.{File, Outcome, done, write_item}
use esp_tsdb.Storage.Laws.{size-store_bytes, get32-store_inside, get16-store_inside}
use esp_tsdb.Write.{Values, put_params, fill_block}
use esp_tsdb.Ring.{Row, Holds, IsGeometry, block_start, data_start}
use esp_tsdb.Ring.Cells.{
  Cell, in_ts, in_param, get16-same, get32-same, param_inside, param_above, fill_block-Cell,
  fill_block-tag, fill_block-ts, fill_block-param,
}
use esp_tsdb.Ring.Frame.{offset_lt, Cell-lt, Holds-frame, bytes-write_item, size-write_item}

-- A block in memory has the row at offset `r`.
pub record HasRow (h : Header) (m : Mem) (r : ℕ) (row : Row) : Type 0 where
  pub stamped : get32 m (8 + r * 4) ≡ row.ts
  pub columns :
      (p : ℕ) → p < h.num_params → get16 m (param_pos h.records_per_block p r) ≡ row.vals p

-- The block after a row was put at offset `off`.
abbrev pub placed : Header → (off ts : ℕ) → Values → Mem → Mem
placed h off ts v raw =
    set_block_count (put_params h.num_params 0 h.records_per_block off v (set_block_ts raw off ts))
      (off + 1)

module _ (h : Header) (g : IsGeometry h) (off ts : ℕ) (v : Values) (raw : Mem)
    (lt : off < h.records_per_block) where
  -- But for the count, it is the block that tsdb_write_h makes.
  placed-fill_block :
      (x : ℕ) → Apart 4 2 x 1 → placed h off ts v raw x ≡ fill_block h off ts v raw x
  unfolding fill_block set_block_count put16
  placed-fill_block x a = ground (
    arith,
    blit_outside (put_params h.num_params 0 h.records_per_block off v (set_block_ts raw off ts))
        (le16 (off + 1)) 4 2 x a,
  )

  pub placed-tag : get32 raw 0 ≡ blkt → get32 (placed h off ts v raw) 0 ≡ blkt
  placed-tag e =
      get32-same (placed h off ts v raw) raw 0 (λ i k.
        placed-fill_block (0 + i) (omega arith)
        ∙ fill_block-tag h off ts v raw lt (0 + i) (omega arith))
      ∙ e

  pub placed-new :
      ts < 2 ^ 32
      → ((p : ℕ) → p < h.num_params → v p < 2 ^ 16)
      → HasRow h (placed h off ts v raw) off (record { ts = ts; vals = v })
  placed-new small fits = record {
    stamped =
        get32-same (placed h off ts v raw) (fill_block h off ts v raw) (8 + off * 4)
          (λ i k. placed-fill_block (8 + off * 4 + i) (omega arith))
        ∙ unfold block_ts in fill_block-ts h off ts v raw lt small;
    columns = λ p k.
        get16-same (placed h off ts v raw) (fill_block h off ts v raw)
          (param_pos h.records_per_block p off)
          (placed-fill_block _ (omega (arith, param_above h.records_per_block p off)))
          (placed-fill_block _ (omega (arith, param_above h.records_per_block p off)))
        ∙ fill_block-param h off ts v raw lt p k (fits p k);
  }

  old_byte :
      (r x : ℕ)
      → r < h.records_per_block
      → r ≢ off
      → Cell h.records_per_block h.num_params r x
      → Apart 4 2 x 1
      → placed h off ts v raw x ≡ raw x
  old_byte r x small ne c a =
      placed-fill_block x a ∙ fill_block-Cell h off ts v raw lt r x small ne c

  pub placed-old :
      (r : ℕ) (row : Row)
      → r < h.records_per_block
      → r ≢ off
      → HasRow h raw r row
      → HasRow h (placed h off ts v raw) r row
  placed-old r row small ne has = record {
    stamped =
        get32-same (placed h off ts v raw) raw (8 + r * 4) (λ i k.
          old_byte r (8 + r * 4 + i) small ne (in_ts (omega arith) (omega arith)) (omega arith))
        ∙ has.stamped;
    columns = λ p k.
        get16-same (placed h off ts v raw) raw (param_pos h.records_per_block p r)
          (old_byte r _ small ne (in_param p k (omega arith) (omega arith))
            (omega (arith, param_above h.records_per_block p r)))
          (old_byte r _ small ne (in_param p k (omega arith) (omega arith))
            (omega (arith, param_above h.records_per_block p r)))
        ∙ has.columns p k;
  }

module _ (h : Header) (g : IsGeometry h) (f : File) (m : Mem) (b : ℕ) where
  abbrev pub flushed : File
  flushed = write_item f (block_start h b) block_size m done

  -- The block, once written, holds its rows.
  pub HasRow-Holds :
      (s : ℕ) (row : Row)
      → s / h.records_per_block ≡ b
      → block_start h (b + 1) ≤ u32
      → get32 m 0 ≡ blkt
      → HasRow h m (s % h.records_per_block) row
      → Holds h flushed s row
  unfolding write_item
  HasRow-Holds s row e room tag has =
      let r_lt = offset_lt s h.records_per_block g.rpb_pos in
      record {
        inside = omega (arith, e, (size-store_bytes f (block_start h b) block_size m).1);
        nowrap = omega (arith, e);
        tagged =
            get32-store_inside f (block_start h b) block_size 0
              (block_start h (s / h.records_per_block)) m (omega (arith, e)) (omega arith)
            ∙ tag;
        stamped =
            get32-store_inside f (block_start h b) block_size (8 + s % h.records_per_block * 4)
              (block_start h (s / h.records_per_block) + (8 + s % h.records_per_block * 4)) m
              (omega (arith, e)) (omega (arith, g.columns_fit, r_lt))
            ∙ has.stamped;
        columns = λ p k.
            get16-store_inside f (block_start h b) block_size
              (param_pos h.records_per_block p (s % h.records_per_block))
              (block_start h (s / h.records_per_block)
                + param_pos h.records_per_block p (s % h.records_per_block))
              m (omega (arith, e))
              (param_inside h.records_per_block h.num_params p (s % h.records_per_block) r_lt k
                g.columns_fit)
            ∙ has.columns p k;
      }

  -- A row of an earlier block is not touched.
  pub Holds-flushed :
      (s : ℕ) (row : Row) → s / h.records_per_block < b → Holds h f s row → Holds h flushed s row
  Holds-flushed s row lt held =
      Holds-frame h f flushed s row (size-write_item f _ block_size m done)
        (λ q x e c.
          let small =
            Cell-lt h (s % h.records_per_block) x g (offset_lt s h.records_per_block g.rpb_pos) c in
          bytes-write_item f (block_start h b) block_size q m done
            (omega (arith, held.inside, small)) (λ y ly ey. absurd (omega (arith, small))))
        held

-- A write below the data region keeps the rows.
pub Holds-below :
    (h : Header) (f : File) (off n s : ℕ) (src : Mem) (o : Outcome) (row : Row)
    → IsGeometry h
    → off + n ≤ data_start h
    → Holds h f s row
    → Holds h (write_item f off n src o) s row
Holds-below h f off n s src o row g le held =
    Holds-frame h f (write_item f off n src o) s row (size-write_item f off n src o)
      (λ q x e c.
        let small =
          Cell-lt h (s % h.records_per_block) x g (offset_lt s h.records_per_block g.rpb_pos) c in
        bytes-write_item f off n q src o (omega (arith, held.inside, small))
          (λ y ly ey. absurd (omega arith)))
      held
