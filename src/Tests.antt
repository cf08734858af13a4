-- ===== src/Tests.antt =====
-- The theorems at a concrete database, and runs of the definitions.
use esp_tsdb.Prelude.{
  ℕ, zero, suc, ◌+◌, ◌<◌, ◌≡◌, ◌≢◌, arith, refl, true, false, Option, none, some, length, ◌%◌,
}
use esp_tsdb.Bytes.{Mem, zeros, blit, put32, get32, le32}
use esp_tsdb.Format.{Header, esp_ok, esp_fail, add32}
use esp_tsdb.Storage.{File, cut}
use esp_tsdb.Buffer.{
  Heap, internal_ram, zero_pool, buffer_read, buffer_write, get_buffer_ptr, alloc_buffer_pool,
  free_buffer_pool,
}
use esp_tsdb.Buffer.Flat.{IsUsable, flat, get_buffer_ptr-flat, buffer_read-buffer_write}
use esp_tsdb.Buffer.Alloc.{Settled, alloc_buffer_pool-Settled, free_buffer_pool-alloc}
use esp_tsdb.Handle.{Handle}
use esp_tsdb.Header.{
  header_is_sane, sane_params, sane_geometry, sane_index, sane_counts, sane_overflow,
}
use esp_tsdb.Header.Sane.{IsPlausible, header_is_sane-IsPlausible}
use esp_tsdb.Write.{WriteEnv, Pass, write_passes, write_fuel, write_locked, evict, is_eviction}
use esp_tsdb.Write.Passes.{IsFinal, write_passes-Ends}
use esp_tsdb.Ring.Failed.{write_locked-evict}
use esp_tsdb.Ring.Refines.{WriteResult, write_locked-refines}
use esp_tsdb.Query.{
  Query, opened, query_init_h, drain_all, query_count_h, params_of, too_many, seek_start,
  first_slot,
}
use esp_tsdb.Query.Seek.{IsLowerBound, seek_start-IsLowerBound}
use esp_tsdb.Query.Window.{window}
use esp_tsdb.Query.Answers.{answers, query-answers, query_count_h-answers}
use esp_tsdb.Ring.{available}
use esp_tsdb.Storage.{read_item}
use esp_tsdb.Index.{Entry, read_entry, find_block_for_timestamp}
use esp_tsdb.Index.Search.{IsIndex, IsBest, find_block_for_timestamp-IsBest}
use esp_tsdb.Samples.{
  sample_header, sample_history, sample_db, sample_row, sample_Rep, sample_CanWrite, sample_FitsRow,
  sample_Series, sample_Enters, sample_env, sample_pool, full_heap,
}

write_locked-refines_example :
    WriteResult sample_header sample_history sample_row
      (write_locked sample_db 40 (λ p. 8) sample_env)
write_locked-refines_example =
    write_locked-refines sample_db sample_history sample_row sample_env sample_Rep sample_CanWrite
      sample_FitsRow

-- Parameter 0 alone, over [15, 100].
abbrev one_param : Option (ℕ → ℕ)
one_param = some (λ i. 0)

query-answers_example :
    (q : Query) × (query_init_h sample_db (some sample_db) 15 100 one_param 1 true
      ≡ opened sample_db q)
    × (drain_all sample_db q
        ≡ some (answers sample_db sample_history 15 100 (params_of sample_db one_param 1).0))
unfolding too_many
query-answers_example =
    query-answers sample_db (some sample_db) sample_db sample_history 15 100 one_param 1
      sample_Enters sample_Series refl (omega arith) refl

query_count_h-answers_example :
    query_count_h sample_db (some sample_db) 25 100 true
    ≡ (esp_ok, length (answers sample_db sample_history 25 100 (params_of sample_db none 0).0))
query_count_h-answers_example =
    query_count_h-answers sample_db (some sample_db) sample_db sample_history 25 100 sample_Enters
      sample_Series refl (omega arith)

seek_start-IsLowerBound_example :
    (k : ℕ) × (seek_start sample_db sample_header 25
        (available sample_header)
        (first_slot sample_header)
      ≡ some k)
    × IsLowerBound sample_db sample_history 25 sample_Series k
seek_start-IsLowerBound_example = seek_start-IsLowerBound sample_db sample_history 25 sample_Series

sample_pool-IsUsable : IsUsable sample_pool
sample_pool-IsUsable = record {
  some_page = omega arith;
  page_pos = omega arith;
  size_fits = omega arith;
}

abbrev sample_bytes : Mem
sample_bytes i = 100 + i

-- Four bytes that lie on both pages.
buffer_read-buffer_write_example :
    buffer_read (buffer_write sample_pool 2 4 sample_bytes) 2 4 zeros 3 ≡ 103
buffer_read-buffer_write_example =
    buffer_read-buffer_write sample_pool 2 4 sample_pool-IsUsable (omega arith) sample_bytes zeros 3
      (omega arith)

get_buffer_ptr-flat_example : sample_pool.pages 1 2 ≡ flat sample_pool 6
unfolding get_buffer_ptr
get_buffer_ptr-flat_example =
    get_buffer_ptr-flat sample_pool sample_pool-IsUsable 5 3 (omega arith)
      (record { page = 1; offset = 1 }) refl 1 (omega arith)

-- A heap whose second page fails.
abbrev short_heap : Heap
short_heap = record {
  gives = λ c i. elim i [ zero ↦ true | suc k ↦ false ];
  content = λ i. zeros;
  live = 7;
}

alloc_buffer_pool-Settled_example :
    Settled 8 short_heap (alloc_buffer_pool 8 true 4 internal_ram 0 zero_pool short_heap)
alloc_buffer_pool-Settled_example =
    alloc_buffer_pool-Settled 8 true 4 internal_ram 0 zero_pool short_heap (omega arith)

free_buffer_pool-alloc_example : (free_buffer_pool sample_pool (full_heap 9)).1.live ≡ 7
free_buffer_pool-alloc_example =
    free_buffer_pool-alloc sample_pool (full_heap 7) (full_heap 9)
      (record { held = λ k lo hi. refl; counted = refl })

header_is_sane-IsPlausible_example : IsPlausible sample_header
unfolding header_is_sane sane_params sane_geometry sane_index sane_counts sane_overflow
header_is_sane-IsPlausible_example = header_is_sane-IsPlausible sample_header refl

-- The handle after a close and an open.
abbrev reopened : Handle
reopened = record sample_db { generation = 2 }

abbrev closing_db : Handle
closing_db = record sample_db { closing = true }

-- Two of the three records are retained, and one of them is in [25, 100].
answers_run : length (answers sample_db sample_history 25 100 (params_of sample_db none 0).0) ≡ 1
unfolding window available params_of
answers_run = refl

-- An index of two entries, of which one is used.
abbrev index_header : Header
index_header = record sample_header { index_entries = 2 }

abbrev index_file : File
index_file = record { size = 2048; bytes = put32 (put32 zeros 1024 20) 1028 7 }

abbrev index_entry : ℕ → Entry
index_entry zero = (20, 7)
index_entry (suc i) = (0, 0)

index_reads : (i : ℕ) → i < 2 → read_entry index_file index_header i ≡ some (index_entry i)
unfolding read_entry read_item get32 put32 blit le32
index_reads zero lt = refl
index_reads (suc zero) lt = refl
index_reads (suc (suc i)) lt = absurd (omega arith)

index_ordered :
    (i j : ℕ)
    → i < j
    → j < 2
    → (index_entry j).0 ≢ 0
    → ((index_entry i).0 ≢ 0) × ((index_entry i).0 < (index_entry j).0)
index_ordered i zero lt le ne = absurd (omega arith)
index_ordered i (suc j) lt le ne = absurd (ne refl)

index_file-IsIndex : IsIndex index_file index_header index_entry
index_file-IsIndex = record { reads = index_reads; ordered = index_ordered }

find_block_for_timestamp-IsBest_example :
    (block : ℕ) × (find_block_for_timestamp index_file index_header 25 ≡ (esp_ok, block))
    × IsBest 2 25 index_entry block
find_block_for_timestamp-IsBest_example =
    find_block_for_timestamp-IsBest index_file index_header index_entry 25 index_file-IsIndex
      (omega arith) (omega arith) (omega arith) (omega arith)

abbrev failing_env : WriteEnv
failing_env = record sample_env { block = λ n. cut 100 false }

write_locked-evict_example :
    ((write_locked sample_db 40 (λ p. 8) failing_env).0 ≡ esp_fail)
    × ((write_locked sample_db 40 (λ p. 8) failing_env).1.header ≡ evict sample_header)
    × ((evict sample_header).total_records ≡ 3)
    × ((evict sample_header).oldest_record_idx ≡ add32 1 1 % 2)
unfolding is_eviction
write_locked-evict_example = write_locked-evict sample_db sample_row failing_env 100 refl refl

-- A database that still grows, on a full filesystem: the first pass asks for a second.
abbrev growing_db : Handle
growing_db = record sample_db { header = record sample_header { max_records = 9 } }

abbrev no_space : WriteEnv
no_space = record sample_env { block = λ n. cut 0 true }

write_passes-Ends_example :
    (p : Pass) × (write_passes write_fuel growing_db 40 sample_row.vals no_space ≡ some p)
    × IsFinal p
write_passes-Ends_example = write_passes-Ends sample_row no_space growing_db
