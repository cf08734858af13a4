-- ===== src/OverflowTests.antt =====
-- New overflow columns at a concrete database.
use esp_tsdb.Prelude.{ℕ, ◌≡◌, ◌==◌, if◌then◌else◌, arith, refl}
use esp_tsdb.Bytes.{Mem, zeros, put32, get32, from_offset, blit, le32}
use esp_tsdb.Storage.{File, read_item, write_item, done, store_bytes}
use esp_tsdb.Format.{Header}
use esp_tsdb.Handle.{Handle}
use esp_tsdb.Write.{values_bytes}
use esp_tsdb.Ring.{Rep}
use esp_tsdb.Ring.Keep.{Rep-cong, Rep-file}
use esp_tsdb.Overflow.{overflow_bytes}
use esp_tsdb.Overflow.Relayout.{layout_of, overflow_records, old_pos, relayout_locked}
use esp_tsdb.Overflow.Moved.{Extends-write}
use esp_tsdb.Overflow.Matched.{IsRemapped, relayout_locked-IsRemapped}
use esp_tsdb.Samples.{sample_header, sample_history, sample_db, sample_file, sample_Rep}

-- The sample with one extra column, of no name, from record 2 on, with the value 9.
abbrev headed_file : File
headed_file = write_item sample_file 2048 1024 (overflow_bytes 1 2 (λ i. zeros)) done

abbrev extra_file : File
extra_file = write_item headed_file 3072 2 (values_bytes (λ i. 9)) done

abbrev extra_header : Header
extra_header = record sample_header {
  extra_param_count = 1;
  overflow_record_size = 2;
  overflow_offset = 2048;
  first_overflow_record_idx = 2;
}

abbrev extra_db : Handle
extra_db = record sample_db {
  file = extra_file;
  header = extra_header;
  extra_param_count = 1;
  overflow_record_size = 2;
  overflow_data_offset = 3072;
  first_overflow_record_idx = 2;
}

extra_size : extra_file.size ≡ 3074
unfolding write_item store_bytes
extra_size = refl

extra_Rep : Rep extra_header extra_file sample_history
extra_Rep =
    let e =
      Extends-write sample_file headed_file 3072 2 (values_bytes (λ i. 9)) done (omega arith) (
        Extends-write sample_file sample_file 2048 1024 (overflow_bytes 1 2 (λ i. zeros)) done
          (omega arith) (record { size = omega arith; bytes = λ q lt. refl })) in
    Rep-cong sample_header extra_header extra_file sample_history
      (record {
        rpb = refl;
        np = refl;
        io = refl;
        ie = refl;
        max = refl;
        total = refl;
        oldest = refl;
      })
      (Rep-file sample_header sample_file extra_file sample_history e.size (λ q lo hi. e.bytes q hi)
        sample_Rep)

-- A new column "a", and the one that is there.
abbrev two_names : ℕ → Mem
two_names i = if i == 0 then put32 zeros 0 97 else zeros

abbrev extra_ovf : Mem
extra_ovf = from_offset extra_file.bytes 2048

relayout_locked-IsRemapped_example : IsRemapped extra_db sample_history 1 extra_ovf two_names 2 (
    relayout_locked extra_db 1 two_names 2
      (record { overflow = done; values = λ k. done; header = done }))
unfolding overflow_records old_pos layout_of read_item write_item store_bytes overflow_bytes get32
    blit put32 le32
relayout_locked-IsRemapped_example =
    relayout_locked-IsRemapped extra_db sample_history 1 extra_ovf two_names 2 done extra_Rep refl
      refl refl (omega arith) (λ k lt. omega arith)
