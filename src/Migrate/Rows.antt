-- ===== src/Migrate/Rows.antt =====
-- migrate_read_record of src/tsdb_migrate.c on the retained rows.
use esp_tsdb.Prelude.{
  ℕ, ◌+◌, ◌/◌, ◌%◌, ◌≤◌, ◌<◌, ◌≡◌, inl, inr, refl, arith, ◌∙◌, ap, true, ltb, some, Bool-cases,
  ◌==◌, ==_iff,
}
use esp_tsdb.Bytes.{Mem, from_offset}
use esp_tsdb.Format.{Header, u32, block_ts, block_param}
use esp_tsdb.Handle.{Handle}
use esp_tsdb.Write.{Values}
use esp_tsdb.Ring.{Row, History, Holds, Rep, available, block_start}
use esp_tsdb.Ring.Frame.{read_block-Holds}
use esp_tsdb.Query.{slot_at, first_slot}
use esp_tsdb.Query.Seek.{oldest_number, retained-Rep, block_ts-Holds}
use esp_tsdb.Query.Rounds.{block_param-Holds}
use esp_tsdb.Migrate.{Cache, source_slot, fetch, row_of, migrate_read_record}

-- The buffer holds the block that it says it holds, if there can be such a block.
abbrev pub IsCache : Handle → Cache → Type 0
IsCache db c =
    block_start db.header (c.cached_blk + 1) ≤ u32
    → c.blk_buf ≡ from_offset db.file.bytes (block_start db.header c.cached_blk)

-- The mark UINT32_MAX, with which a copy begins, names no block.
pub fresh-IsCache :
    (db : Handle) (buf : Mem) → IsCache db (record { cached_blk = 4294967295; blk_buf = buf })
fresh-IsCache db buf le = absurd (omega arith)

source_slot_lem : (h : Header) (k : ℕ) → source_slot h k ≡ slot_at h (first_slot h) k
unfolding source_slot slot_at first_slot
source_slot_lem h k = ground arith

Cache-ext :
    (c : Cache) (b : ℕ) (m : Mem)
    → c.cached_blk ≡ b
    → c.blk_buf ≡ m
    → c ≡ (record { cached_blk = b; blk_buf = m })
Cache-ext c b m p q = λ i. record { cached_blk = p i; blk_buf = q i }

-- With the cache right, the buffer is then the block of the slot.
fetch-Holds :
    (db : Handle) (s : ℕ) (row : Row) (c : Cache)
    → Holds db.header db.file s row
    → IsCache db c
    → let b = s / db.header.records_per_block in
      fetch db b c
      ≡ some
          (record { cached_blk = b; blk_buf = from_offset db.file.bytes (block_start db.header b) })
unfolding fetch
fetch-Holds db s row c v ok = elim (Bool-cases (c.cached_blk == s / db.header.records_per_block)) [
  | inl e ↦
      let same : c.cached_blk ≡ s / db.header.records_per_block = (==_iff _ _).0 e in
      let buf : c.blk_buf
          ≡ from_offset db.file.bytes (block_start db.header (s / db.header.records_per_block)) =
        ok (rw same v.nowrap)
        ∙ ap (λ b. from_offset db.file.bytes (block_start db.header b)) same in
      rw e (ap some (Cache-ext c _ _ same buf))
  | inr e ↦ rw (e, read_block-Holds db s row v) refl
]

read_record_lem :
    (db : Handle) (k a : ℕ) (c c' : Cache)
    → fetch db (source_slot db.header k / db.header.records_per_block) c ≡ some c'
    → migrate_read_record db k a c
      ≡ some (
        block_ts c'.blk_buf (source_slot db.header k % db.header.records_per_block),
        row_of db k a (source_slot db.header k) c'.blk_buf,
        c',
      )
unfolding migrate_read_record
read_record_lem db k a c c' e = simp (e, migrate_read_record) refl

row_of-base :
    (db : Handle) (k a slot p : ℕ) (buf : Mem)
    → p < db.header.num_params
    → row_of db k a slot buf p
      ≡ block_param buf db.header.records_per_block p (slot % db.header.records_per_block)
unfolding row_of
row_of-base db k a slot p buf lt =
    let e : ltb p db.header.num_params ≡ true = ground arith in simp (e, row_of) refl

-- The copy of a migration reads at logical position k, through its one block of cache, the timestamp
-- and the base columns of the k-th oldest retained row, and leaves the cache right for the next read.
-- This is on a database that holds a history, of a capacity of at most 2 ^ 31.
pub migrate_read_record-Rep :
    (db : Handle) (hist : History) (k : ℕ) (c : Cache)
    → Rep db.header db.file hist
    → db.header.max_records ≤ 2147483648
    → k < available db.header
    → IsCache db c
    → let row = hist (oldest_number db.header + k) in
      (vals : Values) × (c' : Cache) × (migrate_read_record db k (available db.header) c
        ≡ some (row.ts, vals, c'))
      × ((p : ℕ) → p < db.header.num_params → vals p ≡ row.vals p)
      × IsCache db c'
migrate_read_record-Rep db hist k c v small lt ok =
    let h = db.header in
    let row = hist (oldest_number h + k) in
    let s = source_slot h k in
    let b = s / h.records_per_block in
    let m = from_offset db.file.bytes (block_start h b) in
    let c' : Cache = record { cached_blk = b; blk_buf = m } in
    let held : Holds h db.file s row =
      rw (source_slot_lem h k) (retained-Rep h db.file hist k v small lt) in
    let got = read_record_lem db k (available h) c _ (fetch-Holds db s row c held ok) in
    (
      row_of db k (available h) s m,
      c',
      rw got (
          ap (λ t. some (t, row_of db k (available h) s m, c'))
            (block_ts-Holds h db.file s row held)),
      λ p lp. row_of-base db k (available h) s p m lp ∙ block_param-Holds h db.file s p row held lp,
      λ le. refl,
    )
