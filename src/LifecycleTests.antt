-- ===== src/LifecycleTests.antt =====
-- Folding, closing, clearing and recycling at a concrete database.
use esp_tsdb.Prelude.{ℕ, ◌≡◌, ◌≤◌, ◌<◌, arith, refl, true, false, none, some, List, [], ◌∷◌}
use esp_tsdb.Format.{Header, err_invalid_state, esp_ok}
use esp_tsdb.Format.Codec.{SameHeader}
use esp_tsdb.Storage.{done, cut}
use esp_tsdb.Handle.{Handle}
use esp_tsdb.Header.{read_header}
use esp_tsdb.Write.{write_h}
use esp_tsdb.Ring.{Rep, History, data_start}
use esp_tsdb.Fold.{FoldEnv, fold_ok, fold_header}
use esp_tsdb.Fold.Keeps.{Folded, fold_header-Rep}
use esp_tsdb.Fold.InFile.{fold_header-InFile}
use esp_tsdb.Lifecycle.{close_h, close_open, sync_locked, SyncEnv, ClearEnv, clear_locked}
use esp_tsdb.Lifecycle.Close.{
  IsSelfContained, close_h-Rep, close_h-IsSelfContained, close_h-sync_locked,
}
use esp_tsdb.Lifecycle.Clear.{IsEmptied, IsZero, clear_locked-InFile}
use esp_tsdb.Recycler.{World, Event, opens, works, closes, retire_handle, close_at, step, run}
use esp_tsdb.Recycler.Stragglers.{reuses, count_reuses, write_h-run}
use esp_tsdb.Samples.{
  sample_header, sample_history, sample_db, sample_Rep, sample_Fits, sample_pool, full_heap,
  sample_row, sample_env, indexed_db, indexed_Rep, indexed_Fits, good_fold,
}

-- The write of the header stops after 100 bytes.
abbrev torn_fold : FoldEnv
torn_fold = record good_fold { write = cut 100 true }

fold_header-Rep_example :
    Rep
      (fold_header sample_db torn_fold).1.header
      (fold_header sample_db torn_fold).1.file
      sample_history
    × Folded sample_db (fold_header sample_db torn_fold)
fold_header-Rep_example = fold_header-Rep sample_db torn_fold sample_history refl sample_Rep

fold_header-InFile_example :
    (g : Header) × (read_header (fold_header sample_db good_fold).1.file ≡ some g)
    × SameHeader g sample_header
unfolding fold_ok
fold_header-InFile_example =
    fold_header-InFile sample_db good_fold refl sample_Fits (omega arith) (omega arith) refl

abbrev pooled_db : Handle
pooled_db = record sample_db { pool = sample_pool }

close_h-Rep_example :
    let c = close_h pooled_db (some pooled_db) (full_heap 9) torn_fold in
    (c.status ≡ esp_ok)
    × (c.retired ≡ true)
    × (c.db.is_open ≡ false)
    × Rep sample_header c.db.file sample_history
    × (c.heap.live ≡ 7)
close_h-Rep_example =
    close_h-Rep pooled_db pooled_db sample_history (full_heap 7) (full_heap 9) torn_fold refl refl
      sample_Rep (record { held = λ k lo hi. refl; counted = refl })

close_h-IsSelfContained_example :
    IsSelfContained (close_h pooled_db (some pooled_db) (full_heap 9) good_fold) sample_header
unfolding fold_ok
close_h-IsSelfContained_example =
    close_h-IsSelfContained pooled_db pooled_db (full_heap 9) good_fold refl refl sample_Fits
      (omega arith) (omega arith) refl

-- The file cannot be opened again.
abbrev lost_file : SyncEnv
lost_file = record { fold = good_fold; closes = true; reopens = false }

close_h-sync_locked_example :
    let d = (sync_locked pooled_db lost_file).1 in
    let c = close_h d (some d) (full_heap 9) good_fold in
    (c.status ≡ esp_ok) × (c.retired ≡ true) × (c.db.pool ≡ sample_pool) × (c.heap.live ≡ 9)
close_h-sync_locked_example = close_h-sync_locked pooled_db lost_file (full_heap 9) good_fold refl

abbrev good_clear : ClearEnv
good_clear = record { entry = λ i. done; fold = good_fold }

clear_locked-InFile_example :
    ((g : Header) × (read_header (clear_locked indexed_db good_clear).file ≡ some g)
      × SameHeader g (clear_locked indexed_db good_clear).header
      × IsEmptied indexed_db.header g
      × ((hist : History) → Rep g (clear_locked indexed_db good_clear).file hist))
    × ((q : ℕ)
        → 1016 ≤ q
        → q < data_start indexed_db.header
        → IsZero (clear_locked indexed_db good_clear).file q)
    × ((k : ℕ)
        → ((clear_locked indexed_db good_clear).side.compact k ≡ none)
          × ((clear_locked indexed_db good_clear).side.legacy k ≡ none))
unfolding fold_ok
clear_locked-InFile_example =
    clear_locked-InFile indexed_db good_clear refl indexed_Fits indexed_Rep.geometry (omega arith)
      (omega arith) refl (λ k. refl)

-- One handle, open.
abbrev one_handle : World
one_handle = record { at = λ i. sample_db; fresh = 1; recycled = none; heap = full_heap 9 }

-- The handle is closed, taken by a new open, and has a database again.
abbrev reopening : List Event
reopening = closes 0 good_fold ∷ opens true true ∷ works 0 sample_db ∷ []

once_reused : count_reuses 0 one_handle reopening ≡ 1
unfolding count_reuses reuses step close_at close_h close_open retire_handle
once_reused = refl

write_h-run_example :
    let db = (run one_handle reopening).at 0 in
    write_h sample_db (some db) 40 (some sample_row.vals) sample_env ≡ (err_invalid_state, db)
write_h-run_example =
    write_h-run 0 one_handle reopening 40 sample_row.vals sample_env (omega arith) (omega arith)
      refl refl refl (rw once_reused (omega arith)) (rw once_reused (omega arith))
