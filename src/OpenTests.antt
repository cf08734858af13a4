-- ===== src/OpenTests.antt =====
-- Opening, creating and recovering at a concrete database.
use esp_tsdb.Prelude.{
  ℕ, ◌≡◌, ◌==◌, ◌<◌, ◌⊎◌, inl, arith, refl, ◌∙◌, sym, ap, true, false, none, some,
}
use mathlib.Core.Path.{subst}
use esp_tsdb.Format.{Header, esp_ok, u32, calc_block_offset}
use esp_tsdb.Format.Codec.{Fits, SameHeader, encode}
use esp_tsdb.Storage.{File, done, cut}
use esp_tsdb.Bytes.{zeros, blit}
use esp_tsdb.Handle.{Handle}
use esp_tsdb.Header.{
  write_header, read_header, header_is_sane, sane_params, sane_geometry, sane_index, sane_counts,
  sane_overflow,
}
use esp_tsdb.Ring.{Rep, Holds, append, available, slot_of}
use esp_tsdb.Ring.Stored.{CanWrite}
use esp_tsdb.Ring.Keep.{Rep-write_header, Holds-cong}
use esp_tsdb.Sidecar.{
  SideEnv, sidecar_write, write_compact, write_mirror, mirror_due, write_small_file, newest_compact,
  newest_legacy, read_compact, read_legacy, newest,
}
use esp_tsdb.Sidecar.Keeps.{sidecar_write-SameData}
use esp_tsdb.Sidecar.InStep.{InStep, IsCounted}
use esp_tsdb.Sidecar.Halves.{IsWhole, bumped}
use esp_tsdb.Sidecar.Recovered.{Recovers}
use esp_tsdb.Sidecar.Crash.{
  whole, in_slot, sidecar_write-Recovers, sidecar_write-IsCounted, sidecar_write-SurvivesCut,
}
use esp_tsdb.Buffer.{internal_ram}
use esp_tsdb.Migrate.{Disk, RecoverEnv, migrate_recover}
use esp_tsdb.Config.{Config, config_ok, entries_of, stride_of}
use esp_tsdb.Open.{OpenEnv, usable, judge_header, create_new, open_file}
use esp_tsdb.Open.Fresh.{FitsConfig, create_new-Reopens, KeepsHeader-write, usable_lem}
use esp_tsdb.Open.Resume.{header_is_sane-cong, IsEarlier, IsCurrent}
use esp_tsdb.Open.Durable.{write_locked-Reopens}
use esp_tsdb.Write.{
  write_locked, write_passes, write_pass, store_record, after_block, write_block, block_status,
  free_space_guard, guard_applies, mark_index, refresh_oldest, count_record, is_eviction,
  evict_if_full, record_idx, fill_block, load_block,
}
use esp_tsdb.Write.Sides.{committed, finish-committed}
use esp_tsdb.Header.Stored.{read_header-encode, bytes-write_start, size-write_start}
use esp_tsdb.Ring.Commit.{finish_write-SameRing}
use esp_tsdb.Samples.{
  sample_block, sample_header, sample_history, sample_db, sample_row, sample_Rep, sample_Fits,
  sample_env, sample_side, good_file, sample_file,
}

-- The header of the sample in version 3, with other counters.
abbrev counted_header : ℕ → ℕ → ℕ → ℕ → ℕ → ℕ → ℕ → Header
counted_header t o n ot nt w e = record sample_header {
  version = 3;
  total_records = t;
  oldest_record_idx = o;
  newest_record_idx = n;
  oldest_timestamp = ot;
  newest_timestamp = nt;
  total_writes = w;
  total_evictions = e;
}

counted_Fits :
    (t o n ot nt w e : ℕ)
    → t < u32
    → o < u32
    → n < u32
    → ot < u32
    → nt < u32
    → w < u32
    → e < u32
    → Fits (counted_header t o n ot nt w e)
counted_Fits t o n ot nt w e a b c d f g h = record {
  magic_word = sample_Fits.magic_word;
  version = omega arith;
  num_params = sample_Fits.num_params;
  param_size = sample_Fits.param_size;
  record_size = sample_Fits.record_size;
  records_per_block = sample_Fits.records_per_block;
  max_records = sample_Fits.max_records;
  total_records = a;
  oldest_record_idx = b;
  newest_record_idx = c;
  oldest_timestamp = d;
  newest_timestamp = f;
  index_offset = sample_Fits.index_offset;
  index_entries = sample_Fits.index_entries;
  index_stride = sample_Fits.index_stride;
  total_writes = g;
  total_evictions = h;
  base_params = sample_Fits.base_params;
  extra_param_count = sample_Fits.extra_param_count;
  overflow_record_size = sample_Fits.overflow_record_size;
  overflow_offset = sample_Fits.overflow_offset;
  first_overflow_record_idx = sample_Fits.first_overflow_record_idx;
  reserved2 = sample_Fits.reserved2;
}

-- One row is stored, and the header is in the file.
abbrev current_header : Header
current_header = counted_header 1 0 0 30 30 1 0

abbrev current_db : Handle
current_db = record sample_db {
  header = current_header;
  file = (write_header sample_db.file current_header done).1;
}

current_Fits : Fits current_header
current_Fits =
    counted_Fits 1 0 0 30 30 1 0 (omega arith) (omega arith) (omega arith) (omega arith)
      (omega arith) (omega arith) (omega arith)

current_InStep : InStep current_db
unfolding newest_compact newest_legacy read_compact read_legacy newest
current_InStep = record {
  compact_le = omega arith;
  legacy_le = omega arith;
  legacy_seq = omega arith;
  mirrored = λ e. refl;
  compact_slot = λ s e. cc;
  legacy_slot = λ s e. cc;
}

current_IsCounted : IsCounted current_db
unfolding newest_compact newest_legacy read_compact read_legacy newest
current_IsCounted = record { in_step = current_InStep; legacy = refl; newest = inl refl }

good_IsWhole : IsWhole good_file
good_IsWhole = record { opens = refl; item = refl; closes = refl }

sidecar_write-Recovers_example :
    ((sidecar_write current_db sample_side).0 ≡ esp_ok)
    × Recovers (sidecar_write current_db sample_side).1.side current_header
sidecar_write-Recovers_example =
    sidecar_write-Recovers current_db sample_side current_InStep current_Fits (omega arith)
      good_IsWhole refl (whole good_IsWhole)

sidecar_write-IsCounted_example :
    IsCounted (sidecar_write current_db sample_side).1
    × ((sidecar_write current_db sample_side).1.sidecar_seq ≡ 1)
sidecar_write-IsCounted_example =
    sidecar_write-IsCounted current_db sample_side current_IsCounted current_Fits (omega arith)
      good_IsWhole refl good_IsWhole

-- The handle and the side files after a first write of the sidecars.
abbrev stored_db : Handle
stored_db = (sidecar_write current_db sample_side).1

stored_header : stored_db.header ≡ current_header
stored_header = (sidecar_write-SameData current_db sample_side).header

stored_InStep : InStep stored_db
stored_InStep =
    (sidecar_write-IsCounted current_db sample_side current_IsCounted current_Fits (omega arith)
      good_IsWhole refl good_IsWhole).0.in_step

stored_Recovers : Recovers stored_db.side current_header
stored_Recovers =
    (sidecar_write-Recovers current_db sample_side current_InStep current_Fits (omega arith)
      good_IsWhole refl (whole good_IsWhole)).1

stored_seq : stored_db.sidecar_seq ≡ 1
unfolding sidecar_write write_compact write_mirror write_small_file mirror_due
stored_seq = refl

-- The next compact slot stops after 50 bytes.
abbrev cut_side : SideEnv
cut_side = record sample_side { slot_write = record good_file { item = cut 50 false } }

sidecar_write-SurvivesCut_example :
    Recovers (write_compact (bumped stored_db) cut_side).0.side current_header
    ⊎ Recovers (write_compact (bumped stored_db) cut_side).0.side stored_db.header
sidecar_write-SurvivesCut_example =
    sidecar_write-SurvivesCut stored_db current_header
      (write_compact (bumped stored_db) cut_side).0.side stored_InStep
      (subst (λ x. Fits x) (sym stored_header) current_Fits) (omega (arith, stored_seq))
      stored_Recovers (in_slot cut_side 50 false refl (omega arith))

-- Two columns, a capacity of 100 records.
abbrev sample_config : Config
sample_config = record {
  num_params = 1;
  param_names = none;
  max_records = 100;
  index_stride = 0;
  buffer_pool_size = 8192;
  alloc_strategy = internal_ram;
  use_paged_allocation = false;
  page_size = 0;
  has_free_space_cb = false;
  min_free_bytes = 0;
}

sample_FitsConfig : FitsConfig sample_config
unfolding config_ok entries_of stride_of
sample_FitsConfig = record {
  checked = refl;
  max_records = omega arith;
  index_stride = omega arith;
  index_entries = omega arith;
}

abbrev sample_recover : RecoverEnv
sample_recover = record { unlinks = true; renames = true }

abbrev good_open : OpenEnv
good_open = record {
  spiram_free = 0;
  recover = sample_recover;
  opens = true;
  creates = true;
  reconstructed = done;
  upgrade = record { malloc_ok = true; sentinel = done; block = λ b. done; version = done };
  header = done;
  name = λ i. done;
  entry = λ i. done;
}

create_new-Reopens_example :
    (r : Handle) × (create_new stored_db sample_config good_open ≡ some r)
    × Rep r.header r.file sample_history
    × (r.header.total_records ≡ 0)
    × ((k : ℕ) → (r.side.compact k ≡ none) × (r.side.legacy k ≡ none))
    × ((g : Header) × (judge_header r.file ≡ usable g) × SameHeader g r.header)
create_new-Reopens_example =
    create_new-Reopens stored_db sample_config good_open sample_history sample_FitsConfig refl refl

-- The handle after one more row.
abbrev written_db : Handle
written_db = (write_locked current_db 40 sample_row.vals sample_env).1

written_ok : write_locked current_db 40 sample_row.vals sample_env ≡ (esp_ok, written_db)
unfolding write_locked write_passes write_pass store_record after_block write_block block_status
    free_space_guard guard_applies
written_ok = refl

abbrev block_written : Handle
block_written =
    (write_block current_db 0
      (fill_block current_header 1 40 sample_row.vals (load_block current_db 0)) done).1

written_header : written_db.header ≡ counted_header 2 0 1 30 40 2 0
unfolding write_locked write_passes write_pass store_record after_block block_status
    free_space_guard guard_applies mark_index refresh_oldest count_record is_eviction evict_if_full
    record_idx
written_header =
    (finish-committed false 1 sample_row sample_env block_written refl).0
    ∙ (sidecar_write-SameData (committed false 1 40 block_written) sample_side).header

written_file : written_db.file ≡ block_written.file
unfolding write_locked write_passes write_pass store_record after_block block_status
    free_space_guard guard_applies is_eviction evict_if_full record_idx
written_file = (finish_write-SameRing false 1 sample_row sample_env block_written refl).1

-- The header in the file is the one before the row.
in_file : (g : Header) × (read_header block_written.file ≡ some g) × SameHeader g current_header
unfolding write_block write_header calc_block_offset
in_file =
    let k =
      KeepsHeader-write current_db.file 1024 1024
        (fill_block current_header 1 40 sample_row.vals (load_block current_db 0)) done
        (omega arith) in
    let long = size-write_start sample_db.file 584 (encode current_header) in
    read_header-encode block_written.file current_header current_Fits (omega (arith, long, k.size))
      (λ q lt.
        k.bytes q lt (omega arith)
        ∙ bytes-write_start sample_db.file 584 q (encode current_header) lt)

counted_IsSane :
    header_is_sane current_header ≡ true × header_is_sane (counted_header 2 0 1 30 40 2 0) ≡ true
unfolding header_is_sane sane_params sane_geometry sane_index sane_counts sane_overflow
counted_IsSane = (refl, refl)

in_file-usable : judge_header block_written.file ≡ usable in_file.0
in_file-usable =
    let (g, e, same) = in_file in
    usable_lem block_written.file g e same.magic_word (ap (λ v. v == 99) same.version)
      (header_is_sane-cong g current_header same ∙ counted_IsSane.0)

in_file-IsEarlier : IsEarlier in_file.0 (counted_header 2 0 1 30 40 2 0)
in_file-IsEarlier =
    let same = in_file.2 in
    record {
      num_params = same.num_params;
      records_per_block = same.records_per_block;
      index_offset = same.index_offset;
      total_records = omega (arith, same.total_records);
      names = same.names;
    }

current_Rep : Rep current_header current_db.file (λ i. sample_history 2)
unfolding available slot_of
current_Rep =
    Rep-write_header current_header current_header sample_file (λ i. sample_history 2) done
      (record {
        geometry = record {
          rpb_pos = omega arith;
          rpb_small = omega arith;
          columns_fit = omega arith;
          header_below = omega arith;
        };
        oldest = refl;
        rows = λ i lo hi.
            let z : i ≡ 0 = omega arith in
            subst
              (λ j. Holds current_header sample_file (slot_of current_header j) (sample_history 2))
              (sym z)
              (Holds-cong sample_header current_header sample_file 0 (sample_history 2) refl refl
                refl (sample_Rep.rows 2 (omega arith) (omega arith)));
      })

current_CanWrite : CanWrite current_db
unfolding record_idx
current_CanWrite = record {
  no_overflow = refl;
  counts = omega arith;
  capacity = omega arith;
  room = omega arith;
}

-- Power is cut after the write: the file is there, and nothing else but the side files.
abbrev left_disk : Disk
left_disk = record { main = some written_db.file; mig = none }

write_locked-Reopens_example :
    (r : Handle) × (open_file
        (record sample_db { side = written_db.side })
        left_disk
        sample_config
        good_open
      ≡ some r)
    × Rep r.header r.file (append (λ i. sample_history 2) 1 sample_row)
    × (r.header.total_records ≡ 2)
unfolding migrate_recover
write_locked-Reopens_example =
    write_locked-Reopens current_db (λ i. sample_history 2) sample_row sample_env current_Rep
      current_CanWrite (record { ts = omega arith; vals = λ p lt. omega arith }) current_InStep
      (omega arith) good_IsWhole refl (whole good_IsWhole) written_db written_ok
      (subst (λ h. Fits h) (sym written_header)
        (counted_Fits 2 0 1 30 40 2 0 (omega arith) (omega arith) (omega arith) (omega arith)
          (omega arith) (omega arith) (omega arith)))
      sample_config
      (subst (λ h. IsCurrent h sample_config) (sym written_header)
        (record {
          magic_word = refl;
          sane = counted_IsSane.1;
          version = omega arith;
          num_params = refl;
        }))
      in_file.0 (ap judge_header written_file ∙ in_file-usable)
      (subst (λ h. IsEarlier in_file.0 h) (sym written_header) in_file-IsEarlier) sample_db
      left_disk good_open refl refl

-- The sample block behind an index of one entry, with no header before it.
abbrev bare_file : File
bare_file = record { size = 2056; bytes = blit zeros 1032 1024 sample_block }
