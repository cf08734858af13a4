-- ===== src/Fold/InFile.antt =====
-- The header that tsdb_fold_header puts into the file is the one that tsdb_read_header then finds.
use esp_tsdb.Prelude.{ℕ, ◌≤◌, ◌<◌, ◌≡◌, ◌∙◌, inl, inr, arith, refl, true, Bool-cases, some}
use esp_tsdb.Bytes.Laws.{blit_inside}
use esp_tsdb.Format.{Header, u32}
use esp_tsdb.Format.Codec.{encode, Fits, SameHeader}
use esp_tsdb.Storage.{Outcome, done, cut, is_done}
use esp_tsdb.Handle.{Handle}
use esp_tsdb.Header.{read_header}
use esp_tsdb.Header.Stored.{read_header-encode, bytes-write_start, size-write_start}
use esp_tsdb.Ring.{data_start}
use esp_tsdb.Fold.{
  FoldEnv, fold_len, fold_image, has_image, fold_file, fold_ok, fold_header, fold_done,
}
use esp_tsdb.Fold.Keeps.{fold_entries-le, fold_header-done}

image-header : (db : Handle) (q : ℕ) → q < 584 → fold_image db q ≡ encode db.header q
unfolding fold_image
image-header db q lt = blit_inside _ (encode db.header) 0 584 q q (omega arith) lt

pub fold_ok-parts : (env : FoldEnv) → fold_ok env ≡ true → env.write ≡ done
unfolding fold_ok
fold_ok-parts env e = go env.write (ground arith)
  where
    go : (o : Outcome) → is_done o ≡ true → o ≡ done
    go done e = refl
    go (cut n b) e = cc

-- An image is never shorter than the header when the index starts behind it.
fold_len-ge :
    (db : Handle)
    → 584 ≤ db.header.index_offset
    → data_start db.header < u32
    → 0 < fold_len db
    → 584 ≤ fold_len db
unfolding fold_len
fold_len-ge db le small pos = ground (arith, fold_entries-le db)

has_image-pos : (db : Handle) (env : FoldEnv) → has_image db env ≡ true → 0 < fold_len db
unfolding has_image
has_image-pos db env e = ground arith

folded_bytes :
    (db : Handle) (env : FoldEnv)
    → 584 ≤ db.header.index_offset
    → data_start db.header < u32
    → env.write ≡ done
    → (584 ≤ (fold_file db env).size)
      × ((q : ℕ) → q < 584 → (fold_file db env).bytes q ≡ encode db.header q)
unfolding fold_file
folded_bytes db env below small w = elim (Bool-cases (has_image db env)) [
  | inl e ↦
      let long = fold_len-ge db below small (has_image-pos db env e) in
      rw (e, fold_file, w)
        (
          omega (arith, long, size-write_start db.file (fold_len db) (fold_image db)),
          λ q lt.
              bytes-write_start db.file (fold_len db) q (fold_image db) (omega arith)
              ∙ image-header db q lt,
        )
  | inr e ↦
      rw (e, fold_file, w)
        (
          size-write_start db.file 584 (encode db.header),
          λ q lt. bytes-write_start db.file 584 q (encode db.header) lt,
        )
]

-- After tsdb_fold_header on an open file has written and synced, tsdb_read_header finds the header of
-- the handle in the file, with every field as it was and all 512 bytes of the names.
-- This is for a header whose fields are values of their C types and an index that starts at byte 584
-- or later, below 2 ^ 32 in full.
pub fold_header-InFile :
    (db : Handle) (env : FoldEnv)
    → db.file_open ≡ true
    → Fits db.header
    → 584 ≤ db.header.index_offset
    → data_start db.header < u32
    → fold_ok env ≡ true
    → (g : Header) × (read_header (fold_header db env).1.file ≡ some g) × SameHeader g db.header
unfolding fold_done
fold_header-InFile db env o fits below small ok = rw (fold_header-done db env o ok) (
    read_header-encode (fold_file db env) db.header fits
      (folded_bytes db env below small (fold_ok-parts env ok)).0
      (folded_bytes db env below small (fold_ok-parts env ok)).1)
