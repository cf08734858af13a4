-- ===== src/Handle.antt =====
-- `struct tsdb_s` of src/tsdb_internal.h: an open database, with the parts of the filesystem that
-- belong to it, and how a call takes the handle's lock.
use esp_tsdb.Prelude.{ℕ, Bool, not, ◌||◌, ◌==◌, if◌then◌else◌, Option, none, some}
use esp_tsdb.Format.{Header, EspErr, err_timeout, err_invalid_state}
use esp_tsdb.Storage.{File}
use esp_tsdb.Buffer.{Pool}

-- The sidecar files: the directory <db>.d with h0 and h1 in it, and <db>.h0 and <db>.h1.
pub record SideFiles : Type 0 where
  pub dir : Bool
  pub compact : ℕ → Option File
  pub legacy : ℕ → Option File

pub record Handle : Type 0 where
  -- `file` is the database file; `file_open` says that the FILE pointer is not NULL.
  pub file_open : Bool
  pub file : File
  pub side : SideFiles
  pub header : Header
  pub is_open : Bool
  pub pool : Pool
  pub read_buffer_offset : ℕ
  pub write_cache_offset : ℕ
  pub query_buffer_offset : ℕ
  pub stream_buffer_offset : ℕ
  pub stream_buffer_size : ℕ
  pub cache_dirty : Bool
  pub capacity_adapted : Bool
  pub in_file_header_stale : Bool
  pub sidecar_seq : ℕ
  pub sidecar_slot : ℕ
  pub legacy_slot : ℕ
  pub legacy_seq : ℕ
  pub legacy_mirrored : Bool
  pub side_dir_ready : Bool
  pub index_stale : Bool
  pub migrating : Bool
  pub closing : Bool
  pub generation : ℕ
  -- free_space_cb is not NULL
  pub has_free_space_cb : Bool
  pub min_free_bytes : ℕ
  pub extra_param_count : ℕ
  pub overflow_data_offset : ℕ
  pub first_overflow_record_idx : ℕ
  pub overflow_record_size : ℕ

-- What TSDB_LOCK_OPEN_OR_RETURN ends with: the handle as it is under the lock, or an error to
-- return with the lock not held.
pub data Locked : Type 0 where
  held : Handle → Locked
  refused : EspErr → Handle → Locked

-- TSDB_LOCK_OPEN_OR_RETURN. `seen` is the handle when the call came, `got` what it is once the mutex
-- is taken: other tasks may have changed it while this one was blocked. `none` is a timeout.
unfoldable pub lock_open : (seen : Handle) → (got : Option Handle) → Locked
lock_open seen none = refused err_timeout seen
lock_open seen (some db) =
    if not db.is_open || not (db.generation == seen.generation)
    then refused err_invalid_state db
    else held db
