-- ===== src/Migrate/Crash.antt =====
-- A power cut at any point of the swap at the end of tsdb_migrate_engine.
use esp_tsdb.Prelude.{◌≡◌, ◌⊎◌, inl, inr, refl, true, Option, none, some}
use esp_tsdb.Storage.{File}
use esp_tsdb.Migrate.{Disk, is_valid_mig, drop_mig, adopt_mig, migrate_recover}

-- The disk after a cut, with `old` the database before the migration and `new` the .mig file as it is
-- synced: while the copy is being written, after the sync, between unlink and rename, and at the end.
pub data SwapPoint (old new : File) : Disk → Type 0 where
  copying : (partial : Option File) → SwapPoint old new (record { main = some old; mig = partial })
  synced : SwapPoint old new (record { main = some old; mig = some new })
  unlinked : SwapPoint old new (record { main = none; mig = some new })
  renamed : SwapPoint old new (record { main = some new; mig = none })

-- A power cut at any point of a migration leaves, after tsdb_migrate_recover, the old file or the new
-- file under the database's name, whole, and no .mig beside it. This is when the new file has its
-- header, and when the unlink or the rename of the recovery succeeds.
pub migrate_recover-SwapPoint :
    (old new : File) (d : Disk)
    → is_valid_mig new ≡ true
    → SwapPoint old new d
    → let d' = migrate_recover d (record { unlinks = true; renames = true }) in
      ((d'.main ≡ some old) ⊎ (d'.main ≡ some new)) × (d'.mig ≡ none)
unfolding migrate_recover drop_mig adopt_mig
migrate_recover-SwapPoint old new _ valid (copying none) = (inl refl, refl)
migrate_recover-SwapPoint old new _ valid (copying (some f)) = (inl refl, refl)
migrate_recover-SwapPoint old new _ valid synced = (inl refl, refl)
migrate_recover-SwapPoint old new _ valid unlinked = rw valid (inr refl, refl)
migrate_recover-SwapPoint old new _ valid renamed = (inr refl, refl)
