-- ===== src/Ring/Failed.antt =====
-- A block write of tsdb_write_h that fails when the ring is full.
use esp_tsdb.Prelude.{ℕ, ◌%◌, ◌≡◌, ◌∙◌, refl, arith, true, false, some}
use esp_tsdb.Format.{esp_fail, add32}
use esp_tsdb.Storage.{cut}
use esp_tsdb.Handle.{Handle}
use esp_tsdb.Write.{
  WriteEnv, failed, evict_if_full, evict, is_eviction, record_idx, guard_applies, free_space_guard,
  write_pass, write_passes, write_locked,
}
use esp_tsdb.Ring.{Row}
use esp_tsdb.Ring.Stored.{wrote, store_record_fail, header-evict_if_full}
use esp_tsdb.Ring.Writes.{write_pass_lem}

guard_off : (db : Handle) → is_eviction db.header ≡ true → guard_applies db ≡ false
unfolding is_eviction guard_applies
guard_off db e = ground arith

no_guard : (db : Handle) (env : WriteEnv) → guard_applies db ≡ false → free_space_guard db env ≡ db
unfolding free_space_guard
no_guard db env e = ground (arith, e)

passes_fail :
    (db d : Handle) (row : Row) (env : WriteEnv)
    → write_pass db row.ts row.vals env (env.block 1) ≡ failed esp_fail d
    → write_passes 2 db row.ts row.vals env ≡ some (failed esp_fail d)
unfolding write_passes
passes_fail db d row env e = simp (e, write_passes) refl

locked_fail :
    (db d : Handle) (row : Row) (env : WriteEnv)
    → free_space_guard db env ≡ db
    → write_passes 2 db row.ts row.vals env ≡ some (failed esp_fail d)
    → write_locked db row.ts row.vals env ≡ (esp_fail, d)
unfolding write_locked
locked_fail db d row env g e = simp (g, e, write_locked) refl

evicted_header :
    (db : Handle) → is_eviction db.header ≡ true → (evict_if_full db).header ≡ evict db.header
evicted_header db full = header-evict_if_full db ∙ (rw full refl)

-- tsdb_write_h on a full ring, under its lock, whose block write fails with another error than ENOSPC
-- returns ESP_FAIL and leaves oldest_record_idx one slot further and total_evictions one higher,
-- though total_records is as before and no record was added.
pub write_locked-evict :
    (db : Handle) (row : Row) (env : WriteEnv) (n : ℕ)
    → is_eviction db.header ≡ true
    → env.block 1 ≡ cut n false
    → ((write_locked db row.ts row.vals env).0 ≡ esp_fail)
      × ((write_locked db row.ts row.vals env).1.header ≡ evict db.header)
      × ((evict db.header).total_records ≡ db.header.total_records)
      × ((evict db.header).oldest_record_idx
          ≡ add32 db.header.oldest_record_idx 1 % db.header.max_records)
unfolding evict
write_locked-evict db row env n full fails =
    let p : write_pass db row.ts row.vals env (env.block 1)
        ≡ failed esp_fail (wrote (evict_if_full db) (record_idx db.header) row (cut n false)) =
      rw fails (
        write_pass_lem db row env (cut n false)
        ∙ store_record_fail (is_eviction db.header) (record_idx db.header) n (evict_if_full db) row
            env) in
    let w = passes_fail db _ row env p in
    let g = no_guard db env (guard_off db full) in
    rw (locked_fail db _ row env g w) (refl, evicted_header db full, refl, refl)
