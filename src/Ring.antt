-- ===== src/Ring.antt =====
-- What the data region means: the retained rows of a history, each in the slot that src/tsdb_write.c
-- puts it in.
pub mod Cells
pub mod Frame
pub mod Keep
pub mod Append
pub mod Stored
pub mod Commit
pub mod Writes
pub mod Refines
pub mod Failed
use esp_tsdb.Prelude.{ℕ, ◌+◌, ◌-◌, ◌*◌, ◌/◌, ◌%◌, ◌^◌, ◌≤◌, ◌<◌, ◌≡◌, ◌⊎◌, ltb, ◌==◌, if◌then◌else◌}
use esp_tsdb.Bytes.{get16, get32}
use esp_tsdb.Format.{Header, u32, blkt, param_pos}
use esp_tsdb.Storage.{File}
use esp_tsdb.Handle.{Handle}
use esp_tsdb.Write.{Values}

-- One record as the caller gave it.
pub record Row : Type 0 where
  pub ts : ℕ
  pub vals : Values

-- Every record ever written, by its number.
abbrev pub History : Type 0
History = ℕ → Row

abbrev pub append : History → ℕ → Row → History
append hist n row i = if i == n then row else hist i

-- The number of records that the ring retains.
unfoldable pub available : Header → ℕ
available h =
    if h.max_records == 0
    then h.total_records
    else if ltb h.total_records h.max_records
    then h.total_records
    else h.max_records

-- The slot of record number `i`.
unfoldable pub slot_of : Header → ℕ → ℕ
slot_of h i = if h.max_records == 0 then i else i % h.max_records

-- The start of the data region, and of a block in it, when no offset wraps.
abbrev pub data_start : Header → ℕ
data_start h = h.index_offset + h.index_entries * 8

abbrev pub block_start : Header → ℕ → ℕ
block_start h b = data_start h + b * 1024

-- The file holds `row` in slot `s`: in a tagged block that the file has in full and whose offsets
-- are below 2 ^ 32.
pub record Holds (h : Header) (f : File) (s : ℕ) (row : Row) : Type 0 where
  pub inside : block_start h (s / h.records_per_block + 1) ≤ f.size
  pub nowrap : block_start h (s / h.records_per_block + 1) ≤ u32
  pub tagged : get32 f.bytes (block_start h (s / h.records_per_block)) ≡ blkt
  pub stamped :
      get32 f.bytes (block_start h (s / h.records_per_block) + (8 + s % h.records_per_block * 4))
      ≡ row.ts
  pub columns :
      (p : ℕ)
      → p < h.num_params
      → get16 f.bytes (
          block_start h (s / h.records_per_block)
          + param_pos h.records_per_block p (s % h.records_per_block))
        ≡ row.vals p

-- A header whose blocks have room for their records.
pub record IsGeometry (h : Header) : Type 0 where
  pub rpb_pos : 0 < h.records_per_block
  pub rpb_small : h.records_per_block < 2 ^ 16
  pub columns_fit : 8 + h.records_per_block * 4 + h.num_params * h.records_per_block * 2 ≤ 1024
  pub header_below : 584 ≤ data_start h

-- The database holds the newest records of the history.
pub record Rep (h : Header) (f : File) (hist : History) : Type 0 where
  pub geometry : IsGeometry h
  pub oldest : h.oldest_record_idx ≡ (h.total_records - available h) % h.max_records
  pub rows :
      (i : ℕ)
      → h.total_records ≤ i + available h
      → i < h.total_records
      → Holds h f (slot_of h i) (hist i)
