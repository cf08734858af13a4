-- ===== src/Overflow/Keeps.antt =====
-- tsdb_add_extra_params_h of src/tsdb_core.c keeps the rows.
use esp_tsdb.Prelude.{ℕ, ◌+◌, ◌%◌, ◌<◌, ◌≡◌, ◌≢◌, ◌⊎◌, inl, inr, refl, arith, Bool-cases}
use esp_tsdb.Bytes.{Mem}
use esp_tsdb.Format.{Header, EspErr, esp_ok, u32}
use esp_tsdb.Format.Codec.{encode}
use esp_tsdb.Storage.{File, Outcome, is_done, write_item}
use esp_tsdb.Handle.{Handle}
use esp_tsdb.Header.{write_header}
use esp_tsdb.Ring.{History, Rep}
use esp_tsdb.Ring.Frame.{bytes-write_item, size-write_item}
use esp_tsdb.Ring.Keep.{SameRing, Rep-cong, Rep-file, Rep-write_below}
use esp_tsdb.Overflow.{overflow_bytes, with_overflow, activate, add_locked}

-- What is written at the end of the file is not in a row.
Rep-appended :
    (h : Header) (f : File) (hist : History) (n : ℕ) (src : Mem) (o : Outcome)
    → Rep h f hist
    → Rep h (write_item f f.size n src o) hist
Rep-appended h f hist n src o v =
    Rep-file h f (write_item f f.size n src o) hist (size-write_item f f.size n src o)
      (λ q lo hi. bytes-write_item f f.size n q src o hi (λ x lx e. absurd (omega arith))) v

with_overflow-SameRing : (h : Header) (count off : ℕ) → SameRing h (with_overflow h count off)
unfolding with_overflow
with_overflow-SameRing h count off = record {
  rpb = refl;
  np = refl;
  io = refl;
  ie = refl;
  max = refl;
  total = refl;
  oldest = refl;
}

-- How the call may end, on a database of the history.
abbrev pub AddResult : Handle → History → (count : ℕ) → EspErr × Handle → Type 0
AddResult db hist count (e, d) =
    Rep d.header d.file hist
    × (((e ≡ esp_ok)
          × (d.extra_param_count ≡ count)
          × (d.first_overflow_record_idx ≡ db.header.total_records)
          × (d.overflow_data_offset ≡ db.file.size + 1024))
        ⊎ ((e ≢ esp_ok) × (d.extra_param_count ≡ db.extra_param_count)))

-- tsdb_add_extra_params_h, under its lock and however its two writes end, keeps every retained row. On
-- ESP_OK the handle has the new columns for the records from the present count on, in a region after
-- what was the end of the file; on an error it has no new column. This is for a file that is at least
-- 1024 bytes below 2 ^ 32.
pub add_locked-Rep :
    (db : Handle) (hist : History) (names : ℕ → Mem) (count : ℕ) (overflow header : Outcome)
    → db.file.size + 1024 < u32
    → Rep db.header db.file hist
    → AddResult db hist count (add_locked db names count overflow header)
unfolding add_locked activate with_overflow write_header
add_locked-Rep db hist names count overflow header small v =
    let at_end : db.file.size % u32 ≡ db.file.size = omega arith in
    let added =
      Rep-appended db.header db.file hist 1024 (overflow_bytes count db.header.total_records names)
        overflow v in
    let h = with_overflow db.header count db.file.size in
    let both =
      Rep-write_below h _ hist 584 (encode h) header v.geometry.header_below
        (Rep-cong db.header h _ hist (with_overflow-SameRing db.header count db.file.size) added) in
    elim (Bool-cases (is_done overflow)) [
      | inr e ↦ rw (at_end, e) (added, inr (λ z. cc, refl))
      | inl e ↦ elim (Bool-cases (is_done header)) [
        | inr e' ↦ rw (at_end, e, e') (both, inr (λ z. cc, refl))
        | inl e' ↦ rw (at_end, e, e') (both, inl (refl, refl, refl, omega arith))
      ]
    ]
