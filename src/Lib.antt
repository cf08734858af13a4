-- ===== src/Lib.antt =====
-- esp_tsdb, the time-series database for ESP32 of include/esp_tsdb.h and src/*.c, as functions on
-- an explicit handle, file and heap.
--
-- A database is one file: a header of 584 bytes, a sparse index, and blocks of 1024 bytes, each with
-- the timestamps and then the columns of records_per_block records. Record number i is in slot i, or
-- slot i % max_records once a capacity is set, so that a full ring overwrites its oldest record. The
-- header in the file is stale between two closes: each write puts the header into a sidecar file.
-- Queries walk the ring from its oldest record on.
--
-- The files:
--   Prelude         the names that all share: native numbers, Boolean tests, lists
--   Bytes           memory as bytes; little-endian loads and stores
--   Storage         a file, fread and fwrite of one item, with each way that an fwrite may end
--   Format          include/esp_tsdb.h: tsdb_header_t, the block macros, tsdb_calc_block_offset
--   Format.Codec    the header as its 584 bytes
--   Buffer          src/tsdb_buffer.c
--   Handle          struct tsdb_s and TSDB_LOCK_OPEN_OR_RETURN of src/tsdb_internal.h
--   Header          tsdb_header_is_sane, tsdb_read_header, tsdb_write_header of src/tsdb_core.c
--   Crc, Sidecar    tsdb_crc32_, tsdb_sidecar_write, _load and _remove of src/tsdb_core.c; below it Slots
--                   and Mirror on the bytes of a slot, Newest on the choice between slots, InStep on the
--                   counters, Halves, Recovered and Crash on writes that are whole or cut
--   Write           src/tsdb_write.c but its global wrappers; below it Passes on the retry and Sides on
--                   the sidecar state
--   Ring            the history that a data region stands for; below it Cells and Frame on the bytes of
--                   a block, Keep and Append on the rows, Stored, Commit, Writes, Failed and
--                   Refines on the parts of tsdb_write_h and the whole
--   Query           the queries of src/tsdb_query.c; below it Window, what a query is to give
--   Aggregate       the aggregations of src/tsdb_query.c; below it Loop on the accumulators, Summary on
--                   the results, Single on tsdb_aggregate_h
--   Index           src/tsdb_index.c
--   Fold            tsdb_fold_header and tsdb_rebuild_index_ of src/tsdb_core.c; below it Keeps on the
--                   rows, InFile on the header and Index on the index
--   Lifecycle       tsdb_close_h, tsdb_sync_h, tsdb_get_stats_h, tsdb_clear_h and tsdb_delete_h
--   Config          tsdb_config_t, its checks and the header of a new database
--   Reconstruct     tsdb_reconstruct_header; below it Bounds, Seen and Exact on its scan
--   Upgrade         the V2 to V3 block layout in tsdb_open
--   Open            tsdb_open on the handle that it acquired; below it Fresh on a new file, Resume on a
--                   file with sidecars, and Durable on a write that tsdb_open follows without a close
--   Recycler        tsdb_retire_handle and tsdb_acquire_handle, with tasks that take turns in any order
--   Names           the column names of src/tsdb_core.c, and how src/tsdb_migrate.c matches them
--   Overflow        tsdb_add_extra_params_h of src/tsdb_core.c; below it Relayout, which is
--                   tsdb_migrate_overflow_h, with Search on the names, Moved on its loop, Columns and Matched
--                   on the whole
--   Migrate         tsdb_migrate_recover, migrate_read_record and tsdb_resize_h of src/tsdb_migrate.c; below
--                   it Crash on power cuts, Rows on the record that is read, Resize on the fast path
--   Engine          the plan of tsdb_migrate_engine; below it Build, the copy, and Run, the rest; Plans,
--                   Content, Copies, Loop, Rebuilt and Failed have the proofs, in the order of the code
--   Samples         a small database
--   Tests, AggregateTests, LifecycleTests, MigrateTests, OpenTests,
--   OverflowTests
--                   the theorems at concrete data
--
-- Functions keep the names of the C without tsdb_. The state of a handle goes in and comes out. NULL
-- handles are left out; other NULL arguments are options. The lock is a parameter, the handle as it
-- is once the mutex is taken, or none on a timeout. Each fwrite ends as its parameter says: done, or
-- cut after some bytes with or without ENOSPC. An fwrite that is done is in the file. The results of
-- fflush and fsync are modelled in tsdb_fold_header alone, the one call that looks at them. fseek
-- past the end of a file succeeds and a write there fills the gap with zeros. A buffer of the pool that a call fills
-- before it reads it is memory of that call.
--
-- Fuel: the retry of tsdb_write_h has 2 passes, since the first sets capacity_adapted and the second
-- cannot ask for another; the binary searches have one step more than they have elements, and a
-- drained query one call more than it has records. The theorems show that none of them runs out.
-- Integers of the C are natural numbers, with % 2 ^ 32 where an addition may wrap.
--
-- Not modelled: the files that tsdb_open leaves when it returns NULL, the
-- benchmark, which only times calls of the rest, the wrappers that pass the default handle, and the
-- mutex itself.
pub mod Prelude
pub mod Bytes
pub mod Format
pub mod Storage
pub mod Buffer
pub mod Handle
pub mod Crc
pub mod Sidecar
pub mod Header
pub mod Write
pub mod Fold
pub mod Lifecycle
pub mod Recycler
pub mod Names
pub mod Overflow
pub mod Migrate
pub mod Engine
pub mod Config
pub mod Reconstruct
pub mod Upgrade
pub mod Open
pub mod Ring
pub mod Query
pub mod Index
pub mod Aggregate
pub mod Samples
pub mod Tests
pub mod LifecycleTests
pub mod OpenTests
pub mod OverflowTests
pub mod MigrateTests
pub mod AggregateTests
