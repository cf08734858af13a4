-- ===== src/Lifecycle/Close.antt =====
-- What a close leaves behind: in the file, in the sidecars and on the heap.
use mathlib.Core.Path.{subst}
use esp_tsdb.Prelude.{
  ℕ, ◌≤◌, ◌<◌, ◌≡◌, inl, inr, arith, refl, true, false, ◌&&◌, ◌||◌, Bool-cases, some, none,
}
use esp_tsdb.Format.{Header, esp_ok, u32}
use esp_tsdb.Format.Codec.{Fits, SameHeader}
use esp_tsdb.Buffer.{Heap}
use esp_tsdb.Buffer.Alloc.{IsAllocated, free_buffer_pool-alloc}
use esp_tsdb.Handle.{Handle}
use esp_tsdb.Header.{read_header}
use esp_tsdb.Ring.{History, Rep, data_start}
use esp_tsdb.Fold.{FoldEnv, fold_ok, fold_header, fold_done}
use esp_tsdb.Sidecar.{sidecar_remove}
use esp_tsdb.Fold.Keeps.{fold_header-Rep, fold_header-done}
use esp_tsdb.Fold.InFile.{fold_header-InFile}
use esp_tsdb.Lifecycle.{Closed, close_open, close_h, SyncEnv, sync_locked}

-- The file has the whole state, and no sidecar says otherwise.
pub record IsSelfContained (c : Closed) (h : Header) : Type 0 where
  pub stored : (g : Header) × (read_header c.db.file ≡ some g) × SameHeader g h
  pub no_compact : (k : ℕ) → c.db.side.compact k ≡ none
  pub no_legacy : (k : ℕ) → c.db.side.legacy k ≡ none

pub close_h-open :
    (seen db : Handle) (hp : Heap) (env : FoldEnv)
    → db.is_open ≡ true
    → close_h seen (some db) hp env ≡ close_open db hp env
unfolding close_h
close_h-open seen db hp env o = simp (o, close_h) refl

-- tsdb_close_h on an open handle returns ESP_OK with the handle closed and retired, every retained row
-- in the file and every block of its pool given back, whether its write of the header goes through or
-- not.
pub close_h-Rep :
    (seen db : Handle) (hist : History) (before hp : Heap) (env : FoldEnv)
    → db.is_open ≡ true
    → db.file_open ≡ true
    → Rep db.header db.file hist
    → IsAllocated db.pool before hp
    → let c = close_h seen (some db) hp env in
      (c.status ≡ esp_ok)
      × (c.retired ≡ true)
      × (c.db.is_open ≡ false)
      × Rep db.header c.db.file hist
      × (c.heap.live ≡ before.live)
unfolding close_open
close_h-Rep seen db hist before hp env o fo v al =
    let d = record db { cache_dirty = false } in
    let (rep, same) = fold_header-Rep d env hist fo v in
    let (header, _, pool, _, _, _) = same in
    rw (close_h-open seen db hp env o) (
      refl,
      refl,
      refl,
      subst (λ h. Rep h (fold_header d env).1.file hist) header rep,
      rw pool (free_buffer_pool-alloc db.pool before hp al),
    )

-- If the write and the sync of the header go through in tsdb_close_h, the file alone has the state of
-- the database: tsdb_read_header finds the header in it, and there is no sidecar.
-- This is for a header whose fields are values of their C types and an index that starts at byte 584
-- or later, below 2 ^ 32 in full.
pub close_h-IsSelfContained :
    (seen db : Handle) (hp : Heap) (env : FoldEnv)
    → db.is_open ≡ true
    → db.file_open ≡ true
    → Fits db.header
    → 584 ≤ db.header.index_offset
    → data_start db.header < u32
    → fold_ok env ≡ true
    → IsSelfContained (close_h seen (some db) hp env) db.header
unfolding close_open fold_done sidecar_remove
close_h-IsSelfContained seen db hp env o fo fits below small ok =
    let d = record db { cache_dirty = false } in
    let stored = fold_header-InFile d env fo fits below small ok in
    rw (close_h-open seen db hp env o) (record {
      stored = stored;
      no_compact = rw (fold_header-done d env fo ok) (λ k. refl);
      no_legacy = rw (fold_header-done d env fo ok) (λ k. refl);
    })

fold_header-pool : (db : Handle) (env : FoldEnv) → (fold_header db env).1.pool ≡ db.pool
unfolding fold_header fold_done
fold_header-pool db env = ground arith

sync_locked-fails :
    (db : Handle) (env : SyncEnv)
    → (env.closes && env.reopens) ≡ false
    → ((sync_locked db env).1.is_open ≡ false) × ((sync_locked db env).1.pool ≡ db.pool)
unfolding sync_locked
sync_locked-fails db env e =
    rw (e, sync_locked)
      (
        refl,
        elim (Bool-cases (db.in_file_header_stale || db.index_stale)) [
          | inl s ↦ rw s (fold_header-pool db env.fold)
          | inr s ↦ rw s refl
        ],
      )

pub close_h-shut :
    (seen db : Handle) (hp : Heap) (env : FoldEnv)
    → db.is_open ≡ false
    → close_h seen (some db) hp env
      ≡ (record { status = esp_ok; db = record db { closing = false }; heap = hp; retired = true })
unfolding close_h
close_h-shut seen db hp env o = simp (o, close_h) refl

-- When tsdb_sync_h cannot close or reopen the file it leaves the handle closed with its pool. A
-- tsdb_close_h after that retires the handle and returns ESP_OK, but frees no block of the pool.
pub close_h-sync_locked :
    (db : Handle) (env : SyncEnv) (hp : Heap) (fold : FoldEnv)
    → (env.closes && env.reopens) ≡ false
    → let d = (sync_locked db env).1 in
      let c = close_h d (some d) hp fold in
      (c.status ≡ esp_ok) × (c.retired ≡ true) × (c.db.pool ≡ db.pool) × (c.heap.live ≡ hp.live)
close_h-sync_locked db env hp fold e =
    let d = (sync_locked db env).1 in
    let (shut, pool) = sync_locked-fails db env e in
    rw (close_h-shut d d hp fold shut) (refl, refl, pool, refl)
