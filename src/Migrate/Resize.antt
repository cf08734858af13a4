-- ===== src/Migrate/Resize.antt =====
-- tsdb_resize_h of src/tsdb_migrate.c where the header alone changes.
use esp_tsdb.Prelude.{
  ℕ, ◌≤◌, ◌<◌, ◌≡◌, ◌≢◌, ◌⊎◌, inl, inr, refl, arith, ◌∙◌, sym, true, false, none, Bool-cases,
}
use native.Mathlib.Nat.{mod-eq_of_lt}
use esp_tsdb.Format.{Header, EspErr, esp_ok, esp_fail}
use esp_tsdb.Storage.{File}
use esp_tsdb.Handle.{Handle}
use esp_tsdb.Ring.{History, Rep, available, slot_of}
use esp_tsdb.Ring.Keep.{Holds-cong}
use esp_tsdb.Fold.{FoldEnv, fold_header, fold_ok, fold_done, fold_file}
use esp_tsdb.Sidecar.{sidecar_remove}
use esp_tsdb.Fold.Keeps.{fold_file-Rep, fold_header-done, fold_header-fails}
use esp_tsdb.Migrate.{is_linear, covers, resize_fast}

abbrev resized : Header → ℕ → Header
resized h m = record h { max_records = m }

-- A header under which every record is still there, in the slot of its number.
abbrev pub AllThere : Header → Type 0
AllThere h = (available h ≡ h.total_records) × ((i : ℕ) → i < h.total_records → slot_of h i ≡ i)

pub all_there : (h : Header) → (h.max_records ≡ 0) ⊎ (h.total_records ≤ h.max_records) → AllThere h
unfolding available slot_of
all_there h le = (ground arith, λ i lt. ground (arith, mod-eq_of_lt {n = i} {m = h.max_records}))

linear-parts :
    (h : Header)
    → is_linear h ≡ true
    → (h.oldest_record_idx ≡ 0) × ((h.max_records ≡ 0) ⊎ (h.total_records ≤ h.max_records))
unfolding is_linear
linear-parts h e = ground arith

covers-parts : (h : Header) (m : ℕ) → covers h m ≡ true → (m ≡ 0) ⊎ (h.total_records ≤ m)
unfolding covers
covers-parts h m e = ground arith

-- The rows stay in their slots under the new capacity.
Rep-resized :
    (h : Header) (f : File) (hist : History) (m : ℕ)
    → is_linear h ≡ true
    → covers h m ≡ true
    → Rep h f hist
    → Rep (resized h m) f hist
Rep-resized h f hist m l c v =
    let (zero_idx, lin) = linear-parts h l in
    let old = all_there h lin in
    let new = all_there (resized h m) (covers-parts h m c) in
    record {
      geometry = record {
        rpb_pos = v.geometry.rpb_pos;
        rpb_small = v.geometry.rpb_small;
        columns_fit = v.geometry.columns_fit;
        header_below = v.geometry.header_below;
      };
      oldest = rw (new.0) (zero_idx ∙ grind arith);
      rows = λ i lo hi.
          let same : slot_of (resized h m) i ≡ slot_of h i = new.1 i hi ∙ sym (old.1 i hi) in
          rw same (
            Holds-cong h (resized h m) f (slot_of h i) (hist i) refl refl refl
              (v.rows i (omega (arith, old.0)) hi));
    }

-- How a fast resize may end, on a database of the history.
abbrev pub ResizeResult : Handle → History → (new_max : ℕ) → EspErr × Handle → Type 0
ResizeResult db hist m (e, d) =
    Rep d.header d.file hist
    × (d.header.total_records ≡ db.header.total_records)
    × (((e ≡ esp_ok)
          × (d.header.max_records ≡ m)
          × ((k : ℕ) → (d.side.compact k ≡ none) × (d.side.legacy k ≡ none)))
        ⊎ ((e ≢ esp_ok) × (d.header ≡ db.header) × (d.side ≡ db.side)))

back_linear :
    (h : Header) (m : ℕ) → is_linear h ≡ true → covers h m ≡ true → is_linear (resized h m) ≡ true
unfolding is_linear covers
back_linear h m l c = ground arith

back_covers :
    (h : Header) (m : ℕ)
    → is_linear h ≡ true
    → covers h m ≡ true
    → covers (resized h m) h.max_records ≡ true
unfolding is_linear covers
back_covers h m l c = ground arith

module _ (db : Handle) (hist : History) (m : ℕ) (env : FoldEnv) where
  abbrev begun : Handle
  begun = record db { header = resized db.header m }

  resize_fast-ok :
      (d : Handle)
      → fold_header begun env ≡ (esp_ok, d)
      → resize_fast db m env ≡ (esp_ok, record d { capacity_adapted = false })
  unfolding resize_fast
  resize_fast-ok d e = simp (e, resize_fast) refl

  resize_fast-fail :
      (d : Handle)
      → fold_header begun env ≡ (esp_fail, d)
      → resize_fast db m env ≡ (
        esp_fail,
        record d { header = record (d.header) { max_records = db.header.max_records } },
      )
  unfolding resize_fast
  resize_fast-fail d e = simp (e, resize_fast) refl

  -- A resize that only changes the header, however its write and its sync end, keeps every row of the
  -- history and the count. On ESP_OK the capacity is the new one and there is no sidecar left; on an
  -- error the header in memory and the sidecars are as they were. This is on an open file whose ring
  -- never wrapped, and a capacity with room for every record.
  pub resize_fast-Rep :
      db.file_open ≡ true
      → is_linear db.header ≡ true
      → covers db.header m ≡ true
      → Rep db.header db.file hist
      → ResizeResult db hist m (resize_fast db m env)
  unfolding fold_done sidecar_remove
  resize_fast-Rep o l c v =
      let rep = fold_file-Rep begun env hist (Rep-resized db.header db.file hist m l c v) in
      elim (Bool-cases (fold_ok env)) [
        | inl e ↦
            rw (resize_fast-ok _ (fold_header-done begun env o e))
              (rep, refl, inl (refl, refl, λ k. (refl, refl)))
        | inr e ↦ rw (resize_fast-fail _ (fold_header-fails begun env o e)) (
          Rep-resized begun.header (fold_file begun env) hist db.header.max_records
              (back_linear db.header m l c) (back_covers db.header m l c) rep,
          refl,
          inr (λ z. cc, refl, refl),
        )
      ]
