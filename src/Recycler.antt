-- ===== src/Recycler.antt =====
-- The one-slot handle recycler of src/tsdb_core.c, with the handles at their addresses.
pub mod Stragglers
use esp_tsdb.Prelude.{
  ℕ, zero, suc, ◌+◌, Bool, true, false, ◌&&◌, ◌==◌, if◌then◌else◌, Option, none, some, List, [],
  ◌∷◌,
}
use esp_tsdb.Bytes.{zeros}
use esp_tsdb.Format.{Header, add32}
use esp_tsdb.Format.Codec.{decode}
use esp_tsdb.Storage.{empty_file}
use esp_tsdb.Buffer.{Heap, zero_pool}
use esp_tsdb.Handle.{Handle}
use esp_tsdb.Fold.{FoldEnv}
use esp_tsdb.Lifecycle.{Closed, close_h}

-- Memory: the handle at each address, of which those below `fresh` are allocated, and
-- s_recycled_handle. A mutex is its handle's address, since a handle keeps its mutex for good.
pub record World : Type 0 where
  pub at : ℕ → Handle
  pub fresh : ℕ
  pub recycled : Option ℕ
  pub heap : Heap

-- memset(db, 0, sizeof(*db)), but for the generation. The file and the sidecars are not open yet.
unfoldable pub wiped : (generation : ℕ) → Handle
wiped generation = record {
  file_open = false;
  file = empty_file;
  side = record { dir = false; compact = λ i. none; legacy = λ i. none };
  header = decode zeros;
  is_open = false;
  pool = zero_pool;
  read_buffer_offset = 0;
  write_cache_offset = 0;
  query_buffer_offset = 0;
  stream_buffer_offset = 0;
  stream_buffer_size = 0;
  cache_dirty = false;
  capacity_adapted = false;
  in_file_header_stale = false;
  sidecar_seq = 0;
  sidecar_slot = 0;
  legacy_slot = 0;
  legacy_seq = 0;
  legacy_mirrored = false;
  side_dir_ready = false;
  index_stale = false;
  migrating = false;
  closing = false;
  generation = generation;
  has_free_space_cb = false;
  min_free_bytes = 0;
  extra_param_count = 0;
  overflow_data_offset = 0;
  first_overflow_record_idx = 0;
  overflow_record_size = 0;
}

unfoldable pub store_at : (ℕ → Handle) → ℕ → Handle → ℕ → Handle
store_at at i db j = if j == i then db else at j

-- tsdb_retire_handle: an occupied slot stays, and the handle is leaked.
unfoldable pub retire_handle : World → ℕ → World
retire_handle w i = elim w.recycled [ none ↦ record w { recycled = some i } | some j ↦ w ]

-- tsdb_acquire_handle: the address, or NULL when calloc or the mutex fails.
unfoldable pub acquire_handle : World → (calloc_ok mutex_ok : Bool) → Option ℕ × World
acquire_handle w calloc_ok mutex_ok = elim w.recycled [
  | some i ↦ (
    some i,
    record w { recycled = none; at = store_at w.at i (wiped (add32 (w.at i).generation 1)) },
  )
  | none ↦
      if calloc_ok && mutex_ok
      then (some w.fresh, record w { at = store_at w.at w.fresh (wiped 0); fresh = w.fresh + 1 })
      else (none, w)
]

-- What tasks do, one at a time: the start of tsdb_open, any call that holds the mutex of handle `i`
-- and leaves `db` there (none of them writes the generation; the end of tsdb_open is one of them),
-- and tsdb_close_h once it has the mutex.
pub data Event : Type 0 where
  opens : (calloc_ok mutex_ok : Bool) → Event
  works : (i : ℕ) → Handle → Event
  closes : (i : ℕ) → FoldEnv → Event

unfoldable pub close_at : World → ℕ → Closed → World
close_at w i c =
    let w' = record w { at = store_at w.at i c.db; heap = c.heap } in
    if c.retired then retire_handle w' i else w'

unfoldable pub step : World → Event → World
step w (opens c m) = (acquire_handle w c m).1
step w (works i db) = record w {
  at = store_at w.at i (record db { generation = (w.at i).generation });
}
step w (closes i env) = close_at w i (close_h (w.at i) (some (w.at i)) w.heap env)

unfoldable pub run : World → List Event → World
run w [] = w
run w (e ∷ es) = run (step w e) es
