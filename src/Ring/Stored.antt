-- ===== src/Ring/Stored.antt =====
-- One stored record: what store_record of Write does to the slots of the ring.
use mathlib.Core.Path.{subst}
use esp_tsdb.Prelude.{
  ℕ, ◌+◌, ◌/◌, ◌^◌, ◌≤◌, ◌<◌, ◌≡◌, ◌≢◌, inl, inr, arith, refl, sym, ltb, if◌then◌else◌, Bool, true,
  false, Bool-cases, not, ◌&&◌,
}
use esp_tsdb.Format.{Header, err_no_mem, esp_fail, u32}
use esp_tsdb.Storage.{Outcome, done, cut}
use esp_tsdb.Handle.{Handle}
use esp_tsdb.Write.{
  WriteEnv, again, failed, stored, record_idx, is_eviction, evict, evict_if_full, count_record,
  store_record, cap_capacity, persist_header,
}
use esp_tsdb.Ring.{Row, History, append, Holds, IsGeometry, Rep, block_start, data_start}
use esp_tsdb.Ring.Keep.{Holds-cong}
use esp_tsdb.Ring.Frame.{after_write, Holds-after_write, after_write-Holds}
use esp_tsdb.Ring.Append.{Rep-next_header}

-- The values that a caller passes are 32-bit timestamps and 16-bit columns.
pub record FitsRow (h : Header) (row : Row) : Type 0 where
  pub ts : row.ts < 2 ^ 32
  pub vals : (p : ℕ) → p < h.num_params → row.vals p < 2 ^ 16

-- What a write relies on: no overflow region, counters and offsets that do not wrap.
pub record CanWrite (db : Handle) : Type 0 where
  pub no_overflow : db.extra_param_count ≡ 0
  pub counts : db.header.total_records + 1 < u32
  pub capacity : db.header.max_records < u32
  pub room : block_start db.header (record_idx db.header / db.header.records_per_block + 1) ≤ u32

-- The handle after the block write of `store_record`.
abbrev pub wrote : Handle → (idx : ℕ) → Row → Outcome → Handle
wrote db idx row o = record db { file = after_write db idx row.ts row.vals o }

-- How store_record ends, for each end of its fwrite.
pub store_record_done :
    (ev : Bool) (idx : ℕ) (db : Handle) (row : Row) (env : WriteEnv)
    → store_record ev idx db row.ts row.vals env done ≡ stored ev idx (wrote db idx row done)
unfolding store_record
store_record_done ev idx db row env = refl

pub store_record_fail :
    (ev : Bool) (idx n : ℕ) (db : Handle) (row : Row) (env : WriteEnv)
    → store_record ev idx db row.ts row.vals env (cut n false)
      ≡ failed esp_fail (wrote db idx row (cut n false))
unfolding store_record
store_record_fail ev idx n db row env = refl

pub store_record_full :
    (ev : Bool) (idx n : ℕ) (db : Handle) (row : Row) (env : WriteEnv)
    → let db' = wrote db idx row (cut n true) in
      store_record ev idx db row.ts row.vals env (cut n true) ≡ (
        if not ev && not db.capacity_adapted && ltb 0 db.header.total_records
        then again (persist_header (cap_capacity db') env.shrink_header env.shrink_header_again)
        else failed err_no_mem db')
unfolding store_record
store_record_full ev idx n db row env = refl

-- Evicting changes two counters of the header and nothing else.
pub record Started (db d : Handle) : Type 0 where
  pub rpb : d.header.records_per_block ≡ db.header.records_per_block
  pub np : d.header.num_params ≡ db.header.num_params
  pub start : data_start d.header ≡ data_start db.header
  pub total : d.header.total_records ≡ db.header.total_records
  pub max : d.header.max_records ≡ db.header.max_records
  pub file : d.file ≡ db.file
  pub extra : d.extra_param_count ≡ db.extra_param_count
  pub adapted : d.capacity_adapted ≡ db.capacity_adapted

pub evict_if_full-Started : (db : Handle) → Started db (evict_if_full db)
unfolding evict_if_full evict
evict_if_full-Started db = elim (Bool-cases (is_eviction db.header)) [
  | inl e ↦ rw e (record {
    rpb = refl;
    np = refl;
    start = refl;
    total = refl;
    max = refl;
    file = refl;
    extra = refl;
    adapted = refl;
  })
  | inr e ↦ rw e (record {
    rpb = refl;
    np = refl;
    start = refl;
    total = refl;
    max = refl;
    file = refl;
    extra = refl;
    adapted = refl;
  })
]

pub header-evict_if_full :
    (db : Handle)
    → (evict_if_full db).header ≡ (if is_eviction db.header then evict db.header else db.header)
unfolding evict_if_full
header-evict_if_full db = elim (Bool-cases (is_eviction db.header)) [
  | inl e ↦ rw e refl
  | inr e ↦ rw e refl
]

module _ (db : Handle) (hist : History) (row : Row) (v : Rep db.header db.file hist)
    (can : CanWrite db) (fits : FitsRow db.header row) where
  abbrev idx : ℕ
  idx = record_idx db.header

  abbrev begun : Handle
  begun = evict_if_full db

  started : Started db begun
  started = evict_if_full-Started db

  begun-IsGeometry : IsGeometry begun.header
  begun-IsGeometry = record {
    rpb_pos = omega (arith, started.rpb, v.geometry.rpb_pos);
    rpb_small = omega (arith, started.rpb, v.geometry.rpb_small);
    columns_fit = rw (started.rpb, started.np) v.geometry.columns_fit;
    header_below = omega (arith, started.start, v.geometry.header_below);
  }

  room_begun : block_start begun.header (idx / begun.header.records_per_block + 1) ≤ u32
  room_begun = rw started.rpb (omega (arith, started.start, can.room))

  -- However the block write ends, every other slot keeps its row.
  pub other_slots :
      (o : Outcome) (s : ℕ) (r : Row)
      → s ≢ idx
      → Holds db.header db.file s r
      → Holds db.header (wrote begun idx row o).file s r
  other_slots o s r ne held =
      Holds-cong begun.header db.header (wrote begun idx row o).file s r started.rpb started.np
        started.start
        (Holds-after_write begun begun-IsGeometry idx row.ts row.vals room_begun o s r ne (
          rw started.file (
            Holds-cong db.header begun.header db.file s r (sym started.rpb) (sym started.np)
              (sym started.start) held)))

  new_slot : Holds db.header (wrote begun idx row done).file idx row
  new_slot =
      Holds-cong begun.header db.header (wrote begun idx row done).file idx row started.rpb
        started.np started.start
        (after_write-Holds begun begun-IsGeometry idx row.ts row.vals room_begun fits.ts
          (λ p k. fits.vals p (omega (arith, started.np))))

  pub stored_Rep :
      Rep
        (count_record begun.header idx row.ts)
        (wrote begun idx row done).file
        (append hist db.header.total_records row)
  stored_Rep =
      let f' = (wrote begun idx row done).file in
      subst (λ h. Rep (count_record h idx row.ts) f' (append hist db.header.total_records row))
        (sym (header-evict_if_full db))
        (Rep-next_header db.header db.file f' hist row row.ts v (other_slots done) new_slot
          can.counts can.capacity)
