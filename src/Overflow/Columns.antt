-- ===== src/Overflow/Columns.antt =====
-- tsdb_migrate_overflow_h of src/tsdb_core.c keeps the rows and moves the overflow columns.
use mathlib.Core.Path.{subst}
use esp_tsdb.Prelude.{
  ℕ, ◌+◌, ◌*◌, ◌%◌, ◌≤◌, ◌<◌, ◌≡◌, refl, arith, ◌∙◌, sym, true, false, some, ◌&&◌, ◌==◌,
}
use esp_tsdb.Bytes.{Mem, get16, get32, blit}
use esp_tsdb.Format.{Header, EspErr, esp_ok, u32}
use esp_tsdb.Format.Codec.{encode}
use esp_tsdb.Storage.{File, Outcome, done, cut, read_item, write_item, store_bytes}
use esp_tsdb.Handle.{Handle}
use esp_tsdb.Header.{write_header}
use esp_tsdb.Ring.{History, Rep}
use esp_tsdb.Ring.Keep.{SameRing, Rep-cong, Rep-file, Rep-write_below}
use esp_tsdb.Overflow.{overflow_bytes, overflow_magic}
use esp_tsdb.Overflow.Relayout.{
  Layout, RelayoutEnv, old_names, same_names, layout_of, overflow_records, old_pos, with_region,
  move_extras, relayout, relayout_locked,
}
use esp_tsdb.Overflow.Moved.{
  Extends, Extends-write, HasRoom, moved_value, move_extras-Extends, move_extras-moved,
}

with_region-SameRing : (h : Header) (off count : ℕ) → SameRing h (with_region h off count)
unfolding with_region
with_region-SameRing h off count = record {
  rpb = refl;
  np = refl;
  io = refl;
  ie = refl;
  max = refl;
  total = refl;
  oldest = refl;
}

-- What a longer file with another header at its start still has.
Rep-Extends :
    (h g : Header) (f k : File) (hist : History) (o : Outcome)
    → Rep h f hist
    → Extends f k
    → SameRing h g
    → Rep g (write_item k 0 584 (encode g) o) hist
Rep-Extends h g f k hist o v e same = Rep-cong h g _ hist same (
    Rep-write_below h k hist 584 (encode g) o v.geometry.header_below
      (Rep-file h f k hist e.size (λ q lo hi. e.bytes q hi) v))

get16-above :
    (f : File) (n q : ℕ) (src : Mem) (o : Outcome)
    → n ≤ q
    → get16 (write_item f 0 n src o).bytes q ≡ get16 f.bytes q
unfolding get16 write_item store_bytes blit
get16-above f n q src done le = ground arith
get16-above f n q src (cut k e) le = ground arith

-- What the call leaves: the rows, and the columns of each record that has extra ones.
pub record IsRelaid (db : Handle) (hist : History) (l : Layout) (r : EspErr × Handle) : Type 0 where
  pub ok : r.0 ≡ esp_ok
  pub rep : Rep r.1.header r.1.file hist
  pub count : r.1.extra_param_count ≡ l.new_count
  pub size : r.1.overflow_record_size ≡ l.new_count * 2
  pub start : r.1.overflow_data_offset ≡ l.new_data_offset
  pub first : r.1.first_overflow_record_idx ≡ db.first_overflow_record_idx
  pub columns :
      (k i : ℕ)
      → k < overflow_records db
      → i < l.new_count
      → get16 r.1.file.bytes (r.1.overflow_data_offset + k * r.1.overflow_record_size + i * 2)
        ≡ moved_value db.file l k i

module _ (db : Handle) (hist : History) (l : Layout) (names : ℕ → Mem) (header : Outcome)
    (v : Rep db.header db.file hist) (starts : l.new_data_offset ≡ db.file.size + 1024)
    (room : db.file.size + 1024 + overflow_records db * (l.new_count * 2) < u32)
    (inside : (k : ℕ)
      → k < overflow_records db
      → old_pos l k + l.old_count * 2 ≤ db.file.size) where
  abbrev good : RelayoutEnv
  good = record { overflow = done; values = λ k. done; header = header }

  at_end : db.file.size % u32 ≡ db.file.size
  at_end = omega (arith, room)

  has_room : HasRoom db.file l 0 (overflow_records db)
  has_room = record { above = omega (arith, starts); nowrap = omega (arith, starts, room) }

  -- The file with the new overflow header behind it.
  abbrev headed : File
  headed =
      write_item db.file (db.file.size % u32) 1024
        (overflow_bytes l.new_count db.first_overflow_record_idx names) done

  headed-Extends : Extends db.file headed
  headed-Extends =
      Extends-write db.file db.file (db.file.size % u32) 1024
        (overflow_bytes l.new_count db.first_overflow_record_idx names) done (omega (arith, at_end))
        (record { size = omega arith; bytes = λ q lt. refl })

  moved :
      (k i : ℕ)
      → k < overflow_records db
      → i < l.new_count
      → get16
          (move_extras (overflow_records db) 0 l (λ j. done) headed).bytes
          (l.new_data_offset + k * (l.new_count * 2) + i * 2)
        ≡ moved_value db.file l k i
  moved k i lt ilt =
      let z : k ≡ 0 + k = omega arith in
      let f2 = move_extras (overflow_records db) 0 l (λ j. done) headed in
      subst
        (λ m.
          get16 f2.bytes (l.new_data_offset + m * (l.new_count * 2) + i * 2)
          ≡ moved_value db.file l m i)
        (sym z)
        (move_extras-moved db.file l (overflow_records db) 0 k i headed has_room headed-Extends lt
          ilt (subst (λ m. old_pos l m + l.old_count * 2 ≤ db.file.size) z (inside k lt)))

  relayout-IsRelaid : IsRelaid db hist l (relayout db l names good)
  unfolding relayout write_header
  relayout-IsRelaid =
      let n = overflow_records db in
      let f2 = move_extras n 0 l (λ k. done) headed in
      let h = with_region db.header (db.file.size % u32) l.new_count in
      record {
        ok = refl;
        rep =
            Rep-Extends db.header h db.file f2 hist header v
              (move_extras-Extends db.file l n 0 (λ k. done) headed has_room headed-Extends)
              (with_region-SameRing db.header (db.file.size % u32) l.new_count);
        count = refl;
        size = refl;
        start = refl;
        first = refl;
        columns = λ k i lt ilt.
            get16-above f2 584 (l.new_data_offset + k * (l.new_count * 2) + i * 2) (encode h) header
              (omega (arith, starts))
            ∙ moved k i lt ilt;
      }

pub layout-starts :
    (db : Handle) (old_count : ℕ) (ovf : Mem) (names : ℕ → Mem) (new_count : ℕ)
    → db.file.size + 1024 < u32
    → (layout_of db old_count ovf names new_count).new_data_offset ≡ db.file.size + 1024
unfolding layout_of
layout-starts db old_count ovf names new_count lt = omega (arith, lt)

-- The call under its lock, in the terms of the model's layout.
pub relayout_locked-IsRelaid :
    (db : Handle) (hist : History) (old_count : ℕ) (ovf : Mem) (names : ℕ → Mem) (new_count : ℕ)
    (header : Outcome)
    → Rep db.header db.file hist
    → read_item db.file db.header.overflow_offset 1024 ≡ some ovf
    → get32 ovf 0 ≡ overflow_magic
    → ((old_count == new_count) && same_names new_count 0 names (old_names ovf)) ≡ false
    → db.file.size + 1024 + overflow_records db * (new_count * 2) < u32
    → ((k : ℕ)
        → k < overflow_records db
        → old_pos (layout_of db old_count ovf names new_count) k + old_count * 2 ≤ db.file.size)
    → IsRelaid db hist (layout_of db old_count ovf names new_count) (
        relayout_locked db old_count names new_count
          (record { overflow = done; values = λ k. done; header = header }))
unfolding relayout_locked layout_of
relayout_locked-IsRelaid db hist old_count ovf names new_count header v r m other room inside =
    let t : (get32 ovf 0 == overflow_magic) ≡ true = ground (arith, m) in
    let l = layout_of db old_count ovf names new_count in
    let env : RelayoutEnv = record { overflow = done; values = λ k. done; header = header } in
    let e : relayout_locked db old_count names new_count env ≡ relayout db l names env =
      simp (r, t, other, relayout_locked) refl in
    subst (λ x. IsRelaid db hist l x) (sym e)
      (relayout-IsRelaid db hist l names header v
        (layout-starts db old_count ovf names new_count (omega (arith, room))) room inside)
