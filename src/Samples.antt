-- ===== src/Samples.antt =====
-- A small database for the tests: one block of two records, a ring of two slots that has wrapped
-- once, in the layout of include/esp_tsdb.h.
use esp_tsdb.Prelude.{ℕ, zero, suc, ◌+◌, ◌*◌, ◌≤◌, ◌<◌, ◌≡◌, arith, refl, true, false, none, some}
use esp_tsdb.Bytes.{Mem, zeros, blit, put16, put32, le16, le32, get16, get32}
use esp_tsdb.Format.{Header, param_pos}
use esp_tsdb.Format.Codec.{Fits}
use esp_tsdb.Storage.{File, done}
use esp_tsdb.Buffer.{Pool, Heap, zero_pool}
use esp_tsdb.Handle.{Handle}
use esp_tsdb.Write.{WriteEnv, record_idx}
use esp_tsdb.Sidecar.{SideEnv, SmallWrite}
use esp_tsdb.Fold.{FoldEnv}
use esp_tsdb.Ring.Keep.{Holds-cong}
use esp_tsdb.Ring.{Row, History, Holds, Rep, available, slot_of}
use esp_tsdb.Ring.Stored.{CanWrite, FitsRow}
use esp_tsdb.Query.Seek.{Series}
use esp_tsdb.Query.Answers.{Enters}

abbrev pub sample_header : Header
sample_header = record {
  magic_word = 0x45545344;
  version = 2;
  num_params = 1;
  param_size = 2;
  record_size = 6;
  records_per_block = 2;
  max_records = 2;
  total_records = 3;
  oldest_record_idx = 1;
  newest_record_idx = 0;
  oldest_timestamp = 20;
  newest_timestamp = 30;
  index_offset = 1024;
  index_entries = 0;
  index_stride = 60;
  total_writes = 3;
  total_evictions = 1;
  param_names = zeros;
  base_params = 1;
  extra_param_count = 0;
  overflow_record_size = 0;
  overflow_offset = 0;
  first_overflow_record_idx = 0;
  reserved2 = 0;
}

-- Record `i` was written at time 10 * (i + 1) with the value i + 5.
abbrev pub sample_history : History
sample_history i = record { ts = 10 * (i + 1); vals = λ p. i + 5 }

-- BLKT, two records, the times 30 and 20, the values 7 and 6.
abbrev pub sample_block : Mem
sample_block =
    put16 (put16 (put32 (put32 (put16 (put32 zeros 0 0x424C4B54) 4 2) 8 30) 12 20) 16 7) 18 6

abbrev pub sample_file : File
sample_file = record { size = 2048; bytes = blit zeros 1024 1024 sample_block }

abbrev pub sample_db : Handle
sample_db = record {
  file_open = true;
  file = sample_file;
  side = record { dir = false; compact = λ i. none; legacy = λ i. none };
  header = sample_header;
  is_open = true;
  pool = zero_pool;
  read_buffer_offset = 0;
  write_cache_offset = 1024;
  query_buffer_offset = 2048;
  stream_buffer_offset = 3072;
  stream_buffer_size = 0;
  cache_dirty = false;
  capacity_adapted = false;
  in_file_header_stale = false;
  sidecar_seq = 0;
  sidecar_slot = 0;
  legacy_slot = 0;
  legacy_seq = 0;
  legacy_mirrored = false;
  side_dir_ready = false;
  index_stale = false;
  migrating = false;
  closing = false;
  generation = 1;
  has_free_space_cb = false;
  min_free_bytes = 0;
  extra_param_count = 0;
  overflow_data_offset = 0;
  first_overflow_record_idx = 0;
  overflow_record_size = 0;
}

sample_columns_new : (p : ℕ) → p < 1 → get16 sample_file.bytes (1024 + param_pos 2 p 0) ≡ 7
unfolding get16 param_pos blit put16 put32 le16 le32
sample_columns_new zero lt = refl
sample_columns_new (suc p) lt = absurd (omega arith)

sample_columns_old : (p : ℕ) → p < 1 → get16 sample_file.bytes (1024 + param_pos 2 p 1) ≡ 6
unfolding get16 param_pos blit put16 put32 le16 le32
sample_columns_old zero lt = refl
sample_columns_old (suc p) lt = absurd (omega arith)

sample_rows :
    (i : ℕ)
    → 3 ≤ i + available sample_header
    → i < 3
    → Holds sample_header sample_file (slot_of sample_header i) (sample_history i)
unfolding available slot_of get16 get32 blit put16 put32 le16 le32
sample_rows zero lo hi = absurd (omega arith)
sample_rows (suc zero) lo hi = record {
  inside = omega arith;
  nowrap = omega arith;
  tagged = refl;
  stamped = refl;
  columns = sample_columns_old;
}
sample_rows (suc (suc zero)) lo hi = record {
  inside = omega arith;
  nowrap = omega arith;
  tagged = refl;
  stamped = refl;
  columns = sample_columns_new;
}
sample_rows (suc (suc (suc i))) lo hi = absurd (omega arith)

pub sample_Rep : Rep sample_header sample_file sample_history
unfolding available
sample_Rep = record {
  geometry = record {
    rpb_pos = omega arith;
    rpb_small = omega arith;
    columns_fit = omega arith;
    header_below = omega arith;
  };
  oldest = refl;
  rows = sample_rows;
}

pub sample_CanWrite : CanWrite sample_db
unfolding record_idx
sample_CanWrite = record {
  no_overflow = refl;
  counts = omega arith;
  capacity = omega arith;
  room = omega arith;
}

-- The next record.
abbrev pub sample_row : Row
sample_row = record { ts = 40; vals = λ p. 8 }

pub sample_FitsRow : FitsRow sample_header sample_row
sample_FitsRow = record { ts = omega arith; vals = λ p lt. omega arith }

pub sample_Series : Series sample_db sample_history
unfolding available
sample_Series = record {
  rep = sample_Rep;
  small = omega arith;
  counts = omega arith;
  nonzero = λ i lo hi e. omega arith;
  ascending = λ i j lo le hi. omega arith;
}

pub sample_Enters : Enters sample_db (some sample_db) sample_db
sample_Enters = record {
  open_seen = refl;
  no_migration = refl;
  no_close = refl;
  locked = refl;
  open_db = refl;
  same = refl;
}

pub sample_Fits : Fits sample_header
sample_Fits = record {
  magic_word = omega arith;
  version = omega arith;
  num_params = omega arith;
  param_size = omega arith;
  record_size = omega arith;
  records_per_block = omega arith;
  max_records = omega arith;
  total_records = omega arith;
  oldest_record_idx = omega arith;
  newest_record_idx = omega arith;
  oldest_timestamp = omega arith;
  newest_timestamp = omega arith;
  index_offset = omega arith;
  index_entries = omega arith;
  index_stride = omega arith;
  total_writes = omega arith;
  total_evictions = omega arith;
  base_params = omega arith;
  extra_param_count = omega arith;
  overflow_record_size = omega arith;
  overflow_offset = omega arith;
  first_overflow_record_idx = omega arith;
  reserved2 = omega arith;
}

abbrev pub good_file : SmallWrite
good_file = record { opens = true; item = done; closes = true }

abbrev pub sample_side : SideEnv
sample_side = record { makes_dir = true; slot_write = good_file; mirror_write = good_file }

abbrev pub sample_env : WriteEnv
sample_env = record {
  free_now = 0;
  guard_header = done;
  guard_header_again = done;
  block = λ n. done;
  shrink_header = done;
  shrink_header_again = done;
  overflow = done;
  sidecar = sample_side;
}

-- Two pages of four bytes, byte `i` of page `k` being 10 * k + i.
abbrev pub sample_pool : Pool
sample_pool = record {
  pages = λ k i. 10 * k + i;
  allocated = λ k. true;
  num_pages = 2;
  page_size = 4;
  total_size = 8;
  is_paged = true;
}

abbrev pub full_heap : ℕ → Heap
full_heap n = record { gives = λ c i. true; content = λ i. zeros; live = n }

-- The same data with one entry of the index before it, which is stale.
abbrev pub indexed_db : Handle
indexed_db = record sample_db {
  header = record sample_header { index_offset = 1016; index_entries = 1 };
  index_stale = true;
}

pub indexed_Rep : Rep indexed_db.header sample_file sample_history
unfolding available slot_of
indexed_Rep = record {
  geometry = record {
    rpb_pos = omega arith;
    rpb_small = omega arith;
    columns_fit = omega arith;
    header_below = omega arith;
  };
  oldest = refl;
  rows = λ i lo hi.
      Holds-cong sample_header indexed_db.header sample_file (slot_of sample_header i)
        (sample_history i) refl refl refl (sample_rows i lo hi);
}

pub indexed_Fits : Fits indexed_db.header
indexed_Fits = record {
  magic_word = omega arith;
  version = omega arith;
  num_params = omega arith;
  param_size = omega arith;
  record_size = omega arith;
  records_per_block = omega arith;
  max_records = omega arith;
  total_records = omega arith;
  oldest_record_idx = omega arith;
  newest_record_idx = omega arith;
  oldest_timestamp = omega arith;
  newest_timestamp = omega arith;
  index_offset = omega arith;
  index_entries = omega arith;
  index_stride = omega arith;
  total_writes = omega arith;
  total_evictions = omega arith;
  base_params = omega arith;
  extra_param_count = omega arith;
  overflow_record_size = omega arith;
  overflow_offset = omega arith;
  first_overflow_record_idx = omega arith;
  reserved2 = omega arith;
}

abbrev pub good_fold : FoldEnv
good_fold = record { malloc_ok = true; write = done; sync_ok = true }
