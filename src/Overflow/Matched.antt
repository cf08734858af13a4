-- ===== src/Overflow/Matched.antt =====
-- Which old column of tsdb_migrate_overflow_h a new one takes its values from.
use mathlib.Core.Path.{subst}
use esp_tsdb.Prelude.{
  ℕ, ◌+◌, ◌*◌, ◌%◌, ◌^◌, ◌≤◌, ◌<◌, ◌≡◌, refl, arith, ◌∙◌, true, false, ◌&&◌, ltb, leb, ◌==◌, some,
}
use esp_tsdb.Bytes.{Mem, get16, get32}
use esp_tsdb.Format.{EspErr, esp_ok, u32}
use esp_tsdb.Storage.{Outcome, done, read_item}
use esp_tsdb.Handle.{Handle}
use esp_tsdb.Ring.{History, Rep}
use esp_tsdb.Overflow.{overflow_magic}
use esp_tsdb.Overflow.Relayout.{
  old_names, same_names, old_values, new_values, old_pos, layout_of, overflow_records,
  relayout_locked,
}
use esp_tsdb.Overflow.Moved.{moved_value}
use esp_tsdb.Overflow.Columns.{layout-starts, relayout_locked-IsRelaid}
use esp_tsdb.Overflow.Search.{SameName, IsFirst, old_column-IsFirst, old_column-new}

-- What the call leaves: the rows, a region at the old end of the file, and in it, for each record that
-- has extra columns, the old value of a name that was there and 0 for a name that was not.
pub record IsRemapped (db : Handle) (hist : History) (old_count : ℕ) (ovf : Mem) (names : ℕ → Mem)
    (new_count : ℕ) (r : EspErr × Handle) : Type 0 where
  pub ok : r.0 ≡ esp_ok
  pub rep : Rep r.1.header r.1.file hist
  pub count : r.1.extra_param_count ≡ new_count
  pub size : r.1.overflow_record_size ≡ new_count * 2
  pub start : r.1.overflow_data_offset ≡ db.file.size + 1024
  pub first : r.1.first_overflow_record_idx ≡ db.first_overflow_record_idx
  pub kept :
      (k i j : ℕ)
      → db.first_overflow_record_idx + k < db.header.total_records
      → i < new_count
      → IsFirst old_count (names i) (old_names ovf) j
      → get16 r.1.file.bytes (db.file.size + 1024 + k * (new_count * 2) + i * 2)
        ≡ get16 db.file.bytes (db.overflow_data_offset + k * db.overflow_record_size + j * 2)
          % 2 ^ 16
  pub added :
      (k i : ℕ)
      → db.first_overflow_record_idx + k < db.header.total_records
      → i < new_count
      → ((m : ℕ) → m < old_count → ¬ SameName (names i) (old_names ovf m))
      → get16 r.1.file.bytes (db.file.size + 1024 + k * (new_count * 2) + i * 2) ≡ 0

module _ (db : Handle) (old_count : ℕ) (ovf : Mem) (names : ℕ → Mem) (new_count : ℕ)
    (room : db.file.size + 1024 + overflow_records db * (new_count * 2) < u32)
    (inside : (k : ℕ)
      → db.first_overflow_record_idx + k < db.header.total_records
      → db.overflow_data_offset + k * db.overflow_record_size + old_count * 2 ≤ db.file.size) where
  in_records :
      (k : ℕ) → k < overflow_records db → db.first_overflow_record_idx + k < db.header.total_records
  unfolding overflow_records
  in_records k lt = ground arith

  records_in :
      (k : ℕ) → db.first_overflow_record_idx + k < db.header.total_records → k < overflow_records db
  unfolding overflow_records
  records_in k lt = ground arith

  old_pos_lem :
      (k : ℕ)
      → db.first_overflow_record_idx + k < db.header.total_records
      → old_pos (layout_of db old_count ovf names new_count) k
        ≡ db.overflow_data_offset + k * db.overflow_record_size
  unfolding old_pos layout_of
  old_pos_lem k lt =
      let small : db.overflow_data_offset + k * db.overflow_record_size < u32 =
        omega (arith, inside k lt, room) in
      omega (arith, small)

  moved-kept :
      (k i j : ℕ)
      → db.first_overflow_record_idx + k < db.header.total_records
      → i < new_count
      → IsFirst old_count (names i) (old_names ovf) j
      → moved_value db.file (layout_of db old_count ovf names new_count) k i
        ≡ get16 db.file.bytes (db.overflow_data_offset + k * db.overflow_record_size + j * 2)
          % 2 ^ 16
  unfolding new_values layout_of old_values
  moved-kept k i j lt ilt is =
      let a : ltb i new_count ≡ true = ground arith in
      let b = old_column-IsFirst old_count j (names i) (old_names ovf) is in
      let p = old_pos_lem k lt in
      let c : ltb j old_count ≡ true = ground (arith, is.inside) in
      let d : leb (db.overflow_data_offset + k * db.overflow_record_size + j * 2 + 2) db.file.size
          ≡ true =
        ground (arith, inside k lt, is.inside) in
      rw (a, new_values, b, p, c, d) refl

  moved-zero :
      (k i : ℕ)
      → i < new_count
      → ((m : ℕ) → m < old_count → ¬ SameName (names i) (old_names ovf m))
      → moved_value db.file (layout_of db old_count ovf names new_count) k i ≡ 0
  unfolding new_values layout_of
  moved-zero k i ilt new =
      let a : ltb i new_count ≡ true = ground arith in
      let b = old_column-new old_count (names i) (old_names ovf) new in rw (a, new_values, b) refl

-- tsdb_migrate_overflow_h under its lock, when the old region has its header and the columns are not
-- yet those asked for: it returns ESP_OK, every retained row is kept, and the new region is behind the
-- old end of the file. For each record from the overflow's first one on, each new column has there
-- the 16-bit value that the record had in the first old column of that name, by the first 19
-- characters up to a NUL, or 0 when no old column has the name. How the write of the main header ends
-- does not matter. This is when the writes of the new region go through, every old record lies in the
-- file in full, and the new region ends below 2 ^ 32.
pub relayout_locked-IsRemapped :
    (db : Handle) (hist : History) (old_count : ℕ) (ovf : Mem) (names : ℕ → Mem) (new_count : ℕ)
    (header : Outcome)
    → Rep db.header db.file hist
    → read_item db.file db.header.overflow_offset 1024 ≡ some ovf
    → get32 ovf 0 ≡ overflow_magic
    → ((old_count == new_count) && same_names new_count 0 names (old_names ovf)) ≡ false
    → db.file.size + 1024 + overflow_records db * (new_count * 2) < u32
    → ((k : ℕ)
        → db.first_overflow_record_idx + k < db.header.total_records
        → db.overflow_data_offset + k * db.overflow_record_size + old_count * 2 ≤ db.file.size)
    → IsRemapped db hist old_count ovf names new_count (
        relayout_locked db old_count names new_count
          (record { overflow = done; values = λ k. done; header = header }))
unfolding layout_of
relayout_locked-IsRemapped db hist old_count ovf names new_count header v r m other room inside =
    let to = in_records db old_count ovf names new_count room inside in
    let from = records_in db old_count ovf names new_count room inside in
    let l = layout_of db old_count ovf names new_count in
    let start = layout-starts db old_count ovf names new_count (omega (arith, room)) in
    let is =
      relayout_locked-IsRelaid db hist old_count ovf names new_count header v r m other room
        (λ k lt.
          rw (old_pos_lem db old_count ovf names new_count room inside k (to k lt))
            (inside k (to k lt))) in
    let res =
      relayout_locked db old_count names new_count
        (record { overflow = done; values = λ k. done; header = header }) in
    let at : (k i : ℕ)
        → k < overflow_records db
        → i < new_count
        → get16 res.1.file.bytes (db.file.size + 1024 + k * (new_count * 2) + i * 2)
          ≡ moved_value db.file l k i =
      λ k i lt ilt.
        subst
          (λ x.
            get16 res.1.file.bytes (x + k * (new_count * 2) + i * 2) ≡ moved_value db.file l k i)
          (is.start ∙ start)
          (subst
            (λ x.
              get16 res.1.file.bytes (res.1.overflow_data_offset + k * x + i * 2)
              ≡ moved_value db.file l k i)
            is.size (is.columns k i lt ilt)) in
    record {
      ok = is.ok;
      rep = is.rep;
      count = is.count;
      size = is.size;
      start = is.start ∙ start;
      first = is.first;
      kept = λ k i j lt ilt fst.
          at k i (from k lt) ilt
          ∙ moved-kept db old_count ovf names new_count room inside k i j lt ilt fst;
      added = λ k i lt ilt new.
          at k i (from k lt) ilt
          ∙ moved-zero db old_count ovf names new_count room inside k i ilt new;
    }
