-- ===== src/Engine/Loop.antt =====
-- The copy loop of tsdb_migrate_engine of src/tsdb_migrate.c from its first record to its last.
use mathlib.Core.Path.{subst}
use esp_tsdb.Prelude.{
  ℕ, zero, suc, ◌+◌, ◌-◌, ◌/◌, ◌^◌, ◌≤◌, ◌<◌, ◌≡◌, inl, inr, refl, arith, Bool, true, false, ltb,
  if◌then◌else◌, Option, none, some, Bool-cases, ◌==◌,
}
use esp_tsdb.Format.{Header, esp_ok, u32}
use esp_tsdb.Storage.{done}
use esp_tsdb.Handle.{Handle}
use esp_tsdb.Write.{Values}
use esp_tsdb.Ring.{History, Rep, IsGeometry, available, block_start, data_start}
use esp_tsdb.Ring.Stored.{FitsRow}
use esp_tsdb.Query.Seek.{oldest_number, available-le}
use esp_tsdb.Migrate.{Cache, migrate_read_record}
use esp_tsdb.Migrate.Rows.{IsCache, migrate_read_record-Rep}
use esp_tsdb.Engine.Build.{EngineEnv, Copy, map_row, copy_record, copy_loop}
use esp_tsdb.Engine.Copies.{Copied, Stored, copy_record-Copied, copy_record-Stored}

-- The history that the new file is to hold: the old rows from position `skip` on, with the new columns.
abbrev pub migrated : Handle → History → (skip : ℕ) → (ℕ → Option ℕ) → History
migrated db hist skip col_map j =
    let row = hist (oldest_number db.header + (skip + j)) in
    record { ts = row.ts; vals = map_row col_map db.header.num_params row.vals }

abbrev column_of : ℕ → Values → Option ℕ → ℕ
column_of n v m = elim m [ none ↦ 0 | some j ↦ if ltb j n then v j else 0 ]

map_row-cong :
    (col_map : ℕ → Option ℕ) (n : ℕ) (v v' : Values) (i : ℕ)
    → ((p : ℕ) → p < n → v p ≡ v' p)
    → map_row col_map n v i ≡ map_row col_map n v' i
unfolding map_row
map_row-cong col_map n v v' i same = go (col_map i)
  where
    go : (m : Option ℕ) → column_of n v m ≡ column_of n v' m
    go none = refl
    go (some j) = elim (Bool-cases (ltb j n)) [
      | inl e ↦ rw e (same j (ground arith))
      | inr e ↦ rw e refl
    ]

map_row-small :
    (col_map : ℕ → Option ℕ) (n : ℕ) (v : Values) (i : ℕ)
    → ((p : ℕ) → p < n → v p < 2 ^ 16)
    → map_row col_map n v i < 2 ^ 16
unfolding map_row
map_row-small col_map n v i small = go (col_map i)
  where
    go : (m : Option ℕ) → column_of n v m < 2 ^ 16
    go none = omega arith
    go (some j) = elim (Bool-cases (ltb j n)) [
      | inl e ↦ rw e (small j (ground arith))
      | inr e ↦ rw e (omega arith)
    ]

copy_loop-step :
    (n k a : ℕ) (db : Handle) (col_map : ℕ → Option ℕ) (env : EngineEnv) (c c' : Copy) (ts : ℕ)
    (row : Values) (cache : Cache) (is_last : Bool)
    → migrate_read_record db k a c.cache ≡ some (ts, row, cache)
    → (k == a - 1) ≡ is_last
    → copy_record c is_last ts
        (map_row col_map (db.header.num_params + db.extra_param_count) row)
        cache
        (env.index_entry k)
        (env.block k)
      ≡ (esp_ok, c')
    → copy_loop (suc n) k db a col_map env c ≡ copy_loop n (k + 1) db a col_map env c'
unfolding copy_loop
copy_loop-step n k a db col_map env c c' ts row cache is_last r l e = simp (r, l, e, copy_loop) refl

-- One copied record, when its row is `r` with the columns `row`.
module _ (db : Handle) (hist : History) (v : Rep db.header db.file hist)
    (small : db.header.max_records ≤ 2147483648) (no_extras : db.extra_param_count ≡ 0)
    (fits : (i : ℕ)
      → oldest_number db.header ≤ i
      → i < db.header.total_records
      → FitsRow db.header (hist i))
    (nh : Header) (g : IsGeometry nh) (skip : ℕ) (col_map : ℕ → Option ℕ) (env : EngineEnv)
    (blocks : (k : ℕ) → env.block k ≡ done)
    (room : (w : ℕ)
      → skip + w < available db.header
      → block_start nh (w / nh.records_per_block + 1) ≤ u32) where
  abbrev rows : History
  rows = migrated db hist skip col_map

  abbrev a : ℕ
  a = available db.header

  fits_row :
      (w : ℕ) → skip + w < a → FitsRow db.header (hist (oldest_number db.header + (skip + w)))
  fits_row w lt =
      fits (oldest_number db.header + (skip + w)) (omega arith)
        (omega (arith, available-le db.header))

  -- What is read is what the new row is made of.
  new_columns :
      (w : ℕ) (row : Values) (p : ℕ)
      → ((q : ℕ)
          → q < db.header.num_params
          → row q ≡ (hist (oldest_number db.header + (skip + w))).vals q)
      → map_row col_map (db.header.num_params + db.extra_param_count) row p ≡ (rows w).vals p
  new_columns w row p same =
      let z : db.header.num_params + db.extra_param_count ≡ db.header.num_params =
        omega (arith, no_extras) in
      rw z (map_row-cong col_map db.header.num_params row _ p same)

  new_small : (w : ℕ) → skip + w < a → (p : ℕ) → (rows w).vals p < 2 ^ 16
  new_small w lt p = map_row-small col_map db.header.num_params _ p (fits_row w lt).vals

  data_small : (w : ℕ) → skip + w < a → data_start nh < u32
  data_small w lt = omega (arith, room w lt)

  -- The new columns of a row.
  abbrev mapped : Values → Values
  mapped row = map_row col_map (db.header.num_params + db.extra_param_count) row

  read_row :
      (w : ℕ) (c : Copy)
      → skip + w < a
      → IsCache db c.cache
      → (row : Values) × (cache : Cache) × (migrate_read_record db (skip + w) a c.cache
          ≡ some ((rows w).ts, row, cache))
        × ((p : ℕ) → p < nh.num_params → mapped row p ≡ (rows w).vals p)
        × ((p : ℕ) → p < nh.num_params → mapped row p < 2 ^ 16)
        × IsCache db cache
  read_row w c lt ok =
      let (row, cache, got, same, ok') =
        migrate_read_record-Rep db hist (skip + w) c.cache v small lt ok in
      (
        row,
        cache,
        got,
        λ p k. new_columns w row p same,
        λ p k. rw (new_columns w row p same) (new_small w lt p),
        ok',
      )

  -- The last record, then those before it.
  pub copy_loop-Stored :
      (n w : ℕ) (c : Copy)
      → skip + w + suc n ≡ a
      → Copied nh rows w c
      → IsCache db c.cache
      → let r = copy_loop (suc n) (skip + w) db a col_map env c in
        (r.0 ≡ esp_ok) × Stored nh rows (w + suc n) r.1
  copy_loop-Stored zero w c e v0 ok =
      let lt : skip + w < a = omega arith in
      let (row, cache, got, cols, small_cols, ok') = read_row w c lt ok in
      let (c', step, st) =
        copy_record-Stored nh rows w c v0 g (data_small w lt) (room w lt) (rows w).ts (mapped row)
          refl (fits_row w lt).ts cols small_cols cache (env.index_entry (skip + w)) in
      let is_last : (skip + w == a - 1) ≡ true = ground arith in
      rw
        (copy_loop-step zero (skip + w) a db col_map env c c' (rows w).ts row cache true got is_last
          (rw (blocks (skip + w)) step))
        (unfold copy_loop in (refl, st))
  copy_loop-Stored (suc n) w c e v0 ok =
      let lt : skip + w < a = omega arith in
      let (row, cache, got, cols, small_cols, ok') = read_row w c lt ok in
      let (c', step, st, same_cache) =
        copy_record-Copied nh rows w c v0 g (data_small w lt) (room w lt) (rows w).ts (mapped row)
          refl (fits_row w lt).ts cols small_cols cache (env.index_entry (skip + w)) in
      let not_last : (skip + w == a - 1) ≡ false = ground arith in
      let assoc : skip + (w + 1) ≡ skip + w + 1 = omega arith in
      let total : w + 1 + suc n ≡ w + suc (suc n) = omega arith in
      let rest = copy_loop-Stored n (w + 1) c' (omega arith) st (rw same_cache ok') in
      rw
        (copy_loop-step (suc n) (skip + w) a db col_map env c c' (rows w).ts row cache false got
          not_last (rw (blocks (skip + w)) step))
        (subst
          (λ k.
            let r = copy_loop (suc n) k db a col_map env c' in
            (r.0 ≡ esp_ok) × Stored nh rows (w + suc (suc n)) r.1)
          assoc
          (subst
            (λ t.
              let r = copy_loop (suc n) (skip + (w + 1)) db a col_map env c' in
              (r.0 ≡ esp_ok) × Stored nh rows t r.1)
            total rest))
