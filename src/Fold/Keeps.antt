-- ===== src/Fold/Keeps.antt =====
-- What tsdb_fold_header leaves as it is.
use esp_tsdb.Prelude.{ℕ, ◌≤◌, ◌≡◌, ◌≢◌, ◌⊎◌, inl, inr, arith, refl, none, true, false, Bool-cases}
use esp_tsdb.Format.{EspErr, esp_ok, esp_fail}
use esp_tsdb.Handle.{Handle}
use esp_tsdb.Sidecar.{sidecar_remove}
use esp_tsdb.Ring.{History, Rep, data_start}
use esp_tsdb.Ring.Keep.{Rep-write_below}
use esp_tsdb.Fold.{
  FoldEnv, fold_entries, fold_len, has_image, fold_file, fold_ok, fold_done, fold_header,
}

pub fold_entries-le : (db : Handle) → fold_entries db ≤ db.header.index_entries
unfolding fold_entries
fold_entries-le db = ground arith

fold_len-le : (db : Handle) → fold_len db ≤ data_start db.header
unfolding fold_len
fold_len-le db = ground (arith, fold_entries-le db)

pub fold_file-Rep :
    (db : Handle) (env : FoldEnv) (hist : History)
    → Rep db.header db.file hist
    → Rep db.header (fold_file db env) hist
unfolding fold_file
fold_file-Rep db env hist v = elim (Bool-cases (has_image db env)) [
  | inl e ↦
      rw (e, fold_file) (Rep-write_below db.header db.file hist _ _ env.write (fold_len-le db) v)
  | inr e ↦
      rw (e, fold_file)
        (Rep-write_below db.header db.file hist 584 _ env.write v.geometry.header_below v)
]

-- What a fold may end with.
abbrev pub Folded : Handle → EspErr × Handle → Type 0
Folded db (e, d) =
    (d.header ≡ db.header)
    × (d.is_open ≡ db.is_open)
    × (d.pool ≡ db.pool)
    × (d.generation ≡ db.generation)
    × (d.extra_param_count ≡ db.extra_param_count)
    × (((e ≡ esp_ok)
          × (d.in_file_header_stale ≡ false)
          × (d.index_stale ≡ false)
          × ((k : ℕ) → (d.side.compact k ≡ none) × (d.side.legacy k ≡ none)))
        ⊎ ((e ≢ esp_ok)
            × (d.side ≡ db.side)
            × (d.in_file_header_stale ≡ db.in_file_header_stale)
            × (d.index_stale ≡ db.index_stale)))

pub fold_header-fails :
    (db : Handle) (env : FoldEnv)
    → db.file_open ≡ true
    → fold_ok env ≡ false
    → fold_header db env ≡ (esp_fail, record db { file = fold_file db env })
unfolding fold_header
fold_header-fails db env o e = simp (o, e, fold_header) refl

pub fold_header-done :
    (db : Handle) (env : FoldEnv)
    → db.file_open ≡ true
    → fold_ok env ≡ true
    → fold_header db env ≡ (esp_ok, fold_done (record db { file = fold_file db env }))
unfolding fold_header
fold_header-done db env o e = simp (o, e, fold_header) refl

-- tsdb_fold_header on an open file, however its write and its sync end, keeps every retained row and
-- the header in memory. If it returns ESP_OK there is no sidecar left and nothing is stale; if not,
-- the sidecars and the two stale marks are as they were.
pub fold_header-Rep :
    (db : Handle) (env : FoldEnv) (hist : History)
    → db.file_open ≡ true
    → Rep db.header db.file hist
    → Rep (fold_header db env).1.header (fold_header db env).1.file hist
      × Folded db (fold_header db env)
unfolding fold_done sidecar_remove
fold_header-Rep db env hist o v = elim (Bool-cases (fold_ok env)) [
  | inl e ↦ rw (fold_header-done db env o e) (
    fold_file-Rep db env hist v,
    (refl, refl, refl, refl, refl, inl (refl, refl, refl, λ k. (refl, refl))),
  )
  | inr e ↦
      rw (fold_header-fails db env o e) (
        fold_file-Rep db env hist v,
        (refl, refl, refl, refl, refl, inr (λ z. cc, refl, refl, refl)),
      )
]

-- A fold that goes through leaves no sidecar.
pub fold_header-removes :
    (db : Handle) (env : FoldEnv)
    → db.file_open ≡ true
    → fold_ok env ≡ true
    → (k : ℕ)
    → ((fold_header db env).1.side.compact k ≡ none) × ((fold_header db env).1.side.legacy k ≡ none)
unfolding fold_done sidecar_remove
fold_header-removes db env o e k = rw (fold_header-done db env o e) (refl, refl)
