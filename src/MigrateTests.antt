-- ===== src/MigrateTests.antt =====
-- Migration, resize and new columns at a concrete database.
use esp_tsdb.Prelude.{
  if◌then◌else◌, ◌==◌, ℕ, ◌+◌, ◌<◌, ◌≡◌, ◌⊎◌, arith, refl, true, false, Option, none, some,
}
use esp_tsdb.Bytes.{zeros, put32, get32, blit, le32}
use esp_tsdb.Format.Codec.{decode}
use esp_tsdb.Storage.{File, read_item, done, cut}
use esp_tsdb.Handle.{Handle}
use esp_tsdb.Header.{read_header}
use esp_tsdb.Write.{Values}
use esp_tsdb.Ring.{Rep, available}
use esp_tsdb.Query.Seek.{oldest_number}
use esp_tsdb.Fold.{FoldEnv}
use esp_tsdb.Migrate.{
  Disk, RecoverEnv, Cache, is_valid_mig, migrate_recover, migrate_read_record, is_linear, covers,
  resize_fast,
}
use esp_tsdb.Migrate.Crash.{unlinked, migrate_recover-SwapPoint}
use esp_tsdb.Migrate.Rows.{IsCache, fresh-IsCache, migrate_read_record-Rep}
use esp_tsdb.Migrate.Resize.{ResizeResult, resize_fast-Rep}
use esp_tsdb.Overflow.{add_locked}
use esp_tsdb.Overflow.Keeps.{AddResult, add_locked-Rep}
use esp_tsdb.Engine.{Plan, plan_size, migrate_file_size, fitting, trim_to, fit_plan}
use esp_tsdb.Engine.Plans.{IsBounded, IsFit, fit_plan-IsFit}
use esp_tsdb.Engine.Run.{engine_locked}
use esp_tsdb.Engine.Failed.{PlanLost, Ended, engine_locked-Ended}
use esp_tsdb.Engine.Build.{EngineEnv}
use esp_tsdb.Samples.{sample_header, sample_history, sample_db, sample_file, sample_Rep, good_fold}

-- A header with nothing but its magic number.
abbrev new_file : File
new_file = record { size = 584; bytes = put32 zeros 0 0x45545344 }

new_file_valid : is_valid_mig new_file ≡ true
unfolding is_valid_mig read_header read_item decode get32 put32 blit le32
new_file_valid = refl

-- The power was cut between the unlink and the rename.
migrate_recover-SwapPoint_example :
    let d : Disk = record { main = none; mig = some new_file } in
    let d' = migrate_recover d (record { unlinks = true; renames = true }) in
    ((d'.main ≡ some sample_file) ⊎ (d'.main ≡ some new_file)) × (d'.mig ≡ none)
migrate_recover-SwapPoint_example =
    migrate_recover-SwapPoint sample_file new_file (record { main = none; mig = some new_file })
      new_file_valid unlinked

abbrev both_files : Disk
both_files = record { main = some sample_file; mig = some new_file }

abbrev no_unlink : RecoverEnv
no_unlink = record { unlinks = false; renames = true }

abbrev fresh_cache : Cache
fresh_cache = record { cached_blk = 4294967295; blk_buf = zeros }

-- The second oldest retained record.
migrate_read_record-Rep_example :
    let row = sample_history (oldest_number sample_header + 1) in
    (vals : Values) × (c' : Cache) × (migrate_read_record sample_db 1
        (available sample_header)
        fresh_cache
      ≡ some (row.ts, vals, c'))
    × ((p : ℕ) → p < 1 → vals p ≡ row.vals p)
    × IsCache sample_db c'
migrate_read_record-Rep_example =
    migrate_read_record-Rep sample_db sample_history 1 fresh_cache sample_Rep (omega arith)
      (unfold available in omega arith) (fresh-IsCache sample_db zeros)

-- No record yet, and the capacity goes from 2 to 8.
abbrev empty_db : Handle
empty_db = record sample_db {
  header = record sample_header { total_records = 0; oldest_record_idx = 0 };
}

empty_Rep : Rep empty_db.header sample_file sample_history
unfolding available
empty_Rep = record {
  geometry = record {
    rpb_pos = omega arith;
    rpb_small = omega arith;
    columns_fit = omega arith;
    header_below = omega arith;
  };
  oldest = refl;
  rows = λ i lo hi. absurd (omega arith);
}

abbrev torn_fold : FoldEnv
torn_fold = record good_fold { write = cut 100 true }

resize_fast-Rep_example : ResizeResult empty_db sample_history 8 (resize_fast empty_db 8 torn_fold)
unfolding is_linear covers
resize_fast-Rep_example =
    resize_fast-Rep empty_db sample_history 8 torn_fold refl refl refl empty_Rep

abbrev good_engine : EngineEnv
good_engine = record {
  malloc_ok = true;
  opens_mig = true;
  first_header = done;
  name = λ i. done;
  zero_entry = λ i. done;
  index_entry = λ k. done;
  block = λ k. done;
  last_header = done;
  renames = true;
  reopens = true;
}

-- Two columns, of which the second is new, and a capacity of five records.
abbrev wider : Plan
wider = record { count = 2; index_offset = 1024; rpb = 127; retain = 2; max = 5; index_entries = 1 }

abbrev wider_columns : ℕ → Option ℕ
wider_columns i = if i == 0 then some 0 else none

-- A thousand records of one column, and room for 338 of them.
abbrev large : Plan
large = record {
  count = 1;
  index_offset = 1024;
  rpb = 169;
  retain = 1000;
  max = 1000;
  index_entries = 17;
}

abbrev smaller : Plan
smaller = record large { retain = 338; max = 338; index_entries = 6 }

large-IsBounded : IsBounded large 60
large-IsBounded = record {
  rpb_pos = omega arith;
  rpb_small = omega arith;
  some_records = omega arith;
  capped = omega arith;
  entries = refl;
  max_small = omega arith;
  small = omega arith;
  stride_pos = omega arith;
}

fit_plan-IsFit_example : IsFit large smaller 4096
unfolding fit_plan plan_size migrate_file_size fitting trim_to
fit_plan-IsFit_example = fit_plan-IsFit large 60 4096 large-IsBounded smaller true refl

-- Without a capacity the index has 256 entries before the trim and 402 after it, so that the trimmed
-- plan does not fit.
abbrev unlimited : Plan
unlimited = record {
  count = 2;
  index_offset = 1024;
  rpb = 127;
  retain = 1000000;
  max = 0;
  index_entries = 256;
}

abbrev outgrown : Plan
outgrown = record unlimited { retain = 152400; max = 152400; index_entries = 402 }

trim_unlimited_run : fit_plan unlimited 380 1231872 true ≡ some outgrown
unfolding fit_plan plan_size migrate_file_size fitting trim_to
trim_unlimited_run = refl

outgrown_run : plan_size outgrown ≡ 1233040
unfolding plan_size migrate_file_size
outgrown_run = refl

-- The disk is full at the first block.
abbrev full_disk : EngineEnv
full_disk = record good_engine { block = λ k. cut 100 true }

engine_locked-Ended_example :
    Ended sample_db
      (PlanLost sample_db full_disk zeros)
      (engine_locked sample_db none 0 none (some 8) full_disk zeros)
engine_locked-Ended_example = engine_locked-Ended sample_db none 0 none (some 8) full_disk zeros

-- One new column, with the name "b".
add_locked-Rep_example :
    AddResult sample_db sample_history 1 (add_locked sample_db (λ i. put32 zeros 0 98) 1 done done)
add_locked-Rep_example =
    add_locked-Rep sample_db sample_history (λ i. put32 zeros 0 98) 1 done done (omega arith)
      sample_Rep
