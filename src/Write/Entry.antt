-- ===== src/Write/Entry.antt =====
-- How tsdb_write_h of src/tsdb_write.c enters a handle.
use esp_tsdb.Prelude.{ℕ, ◌≡◌, ◌≢◌, ◌⊎◌, arith, refl, true, false, some}
use esp_tsdb.Format.{err_invalid_state}
use esp_tsdb.Handle.{Handle, refused, lock_open}
use esp_tsdb.Write.{Values, WriteEnv, write_h}

-- The handle is not the one that the caller saw: closed, or closed and opened again.
abbrev pub Replaced : (seen db : Handle) → Type 0
Replaced seen db = (db.is_open ≡ false) ⊎ (db.generation ≢ seen.generation)

lock_gone :
    (seen db : Handle) → Replaced seen db → lock_open seen (some db) ≡ refused err_invalid_state db
unfolding lock_open
lock_gone seen db gone = ground arith

-- A call of tsdb_write_h that began on an open handle, with no migration and no close under way, and
-- that gets the lock when the handle has been closed, or closed and opened again, returns ESP_ERR_INVALID_STATE and changes nothing of the handle.
pub write_h-Replaced :
    (seen db : Handle) (timestamp : ℕ) (values : Values) (env : WriteEnv)
    → seen.is_open ≡ true
    → seen.migrating ≡ false
    → seen.closing ≡ false
    → Replaced seen db
    → write_h seen (some db) timestamp (some values) env ≡ (err_invalid_state, db)
unfolding write_h
write_h-Replaced seen db timestamp values env open_seen no_migration no_close gone =
    simp (open_seen, no_migration, no_close, write_h, lock_gone seen db gone) refl
