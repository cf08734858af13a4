-- ===== src/Lifecycle/Clear.antt =====
-- What tsdb_clear_h leaves.
use native.Mathlib.Nat.{zero-mod}
use mathlib.Core.Path.{subst}
use native.Mathlib.Decide.{dec_lt}
use esp_tsdb.Storage.Laws.{bytes-store_inside, size-store_bytes}
use esp_tsdb.Prelude.{
  ℕ, zero, suc, ◌+◌, ◌*◌, ◌-◌, ◌≤◌, ◌<◌, ◌≡◌, arith, refl, ◌∙◌, sym, true, false, some, none, ltb,
  if◌then◌else◌, ap,
}
use esp_tsdb.Bytes.{zeros}
use esp_tsdb.Format.{Header, EspErr, u32}
use esp_tsdb.Format.Codec.{encode, Fits, SameHeader}
use esp_tsdb.Storage.{File, Outcome, done, write_item}
use esp_tsdb.Handle.{Handle}
use esp_tsdb.Header.{read_header}
use esp_tsdb.Ring.{History, Rep, IsGeometry, available, data_start}
use esp_tsdb.Ring.Frame.{bytes-write_item, size-write_item}
use esp_tsdb.Fold.{fold_ok, has_image, fold_len, fold_entries, fold_file, fold_done, fold_header}
use esp_tsdb.Fold.Keeps.{fold_header-done, fold_header-removes}
use esp_tsdb.Fold.InFile.{fold_header-InFile}
use esp_tsdb.Lifecycle.{clear_counters, zero_entries, moved, ClearEnv, clear_locked}

-- A database with no record holds every history's first 0 rows.
pub Rep-empty :
    (h : Header) (f : File) (hist : History)
    → IsGeometry h
    → h.total_records ≡ 0
    → h.oldest_record_idx ≡ 0
    → Rep h f hist
Rep-empty h f hist g t o = record {
  geometry = g;
  oldest =
      let z : h.total_records - available h ≡ 0 = omega arith in
      rw z (o ∙ sym (zero-mod h.max_records));
  rows = λ i lo hi. absurd (omega arith);
}

-- What tsdb_fold_header gets.
abbrev pub cleared : Handle → ClearEnv → Handle
cleared db env = record db {
  header = clear_counters db.header;
  first_overflow_record_idx =
      if ltb 0 db.header.overflow_offset then 0 else db.first_overflow_record_idx;
  file = zero_entries db.header.index_entries 0 db.header.index_offset db.file env.entry;
  index_stale = false;
}

counters-Fits : (h : Header) → Fits h → Fits (clear_counters h)
unfolding clear_counters
counters-Fits h v = record {
  magic_word = v.magic_word;
  version = v.version;
  num_params = v.num_params;
  param_size = v.param_size;
  record_size = v.record_size;
  records_per_block = v.records_per_block;
  max_records = v.max_records;
  total_records = omega arith;
  oldest_record_idx = omega arith;
  newest_record_idx = omega arith;
  oldest_timestamp = omega arith;
  newest_timestamp = omega arith;
  index_offset = v.index_offset;
  index_entries = v.index_entries;
  index_stride = v.index_stride;
  total_writes = omega arith;
  total_evictions = omega arith;
  base_params = v.base_params;
  extra_param_count = v.extra_param_count;
  overflow_record_size = v.overflow_record_size;
  overflow_offset = v.overflow_offset;
  first_overflow_record_idx = ground (arith, v.first_overflow_record_idx);
  reserved2 = v.reserved2;
}

-- `g` is the header `h` without records: the counters are 0, the names and the geometry are the same.
pub record IsEmptied (h g : Header) : Type 0 where
  pub total_records : g.total_records ≡ 0
  pub oldest_record_idx : g.oldest_record_idx ≡ 0
  pub newest_record_idx : g.newest_record_idx ≡ 0
  pub oldest_timestamp : g.oldest_timestamp ≡ 0
  pub newest_timestamp : g.newest_timestamp ≡ 0
  pub total_writes : g.total_writes ≡ 0
  pub total_evictions : g.total_evictions ≡ 0
  pub first_overflow : 0 < h.overflow_offset → g.first_overflow_record_idx ≡ 0
  pub num_params : g.num_params ≡ h.num_params
  pub records_per_block : g.records_per_block ≡ h.records_per_block
  pub max_records : g.max_records ≡ h.max_records
  pub index_offset : g.index_offset ≡ h.index_offset
  pub index_entries : g.index_entries ≡ h.index_entries
  pub index_stride : g.index_stride ≡ h.index_stride
  pub overflow_offset : g.overflow_offset ≡ h.overflow_offset
  pub extra_param_count : g.extra_param_count ≡ h.extra_param_count
  pub names : (i : ℕ) → i < 512 → g.param_names i ≡ h.param_names i

SameHeader-IsEmptied : (h g : Header) → SameHeader g (clear_counters h) → IsEmptied h g
unfolding clear_counters
SameHeader-IsEmptied h g same = record {
  total_records = same.total_records;
  oldest_record_idx = same.oldest_record_idx;
  newest_record_idx = same.newest_record_idx;
  oldest_timestamp = same.oldest_timestamp;
  newest_timestamp = same.newest_timestamp;
  total_writes = same.total_writes;
  total_evictions = same.total_evictions;
  first_overflow = λ lt. same.first_overflow_record_idx ∙ ground (arith, lt);
  num_params = same.num_params;
  records_per_block = same.records_per_block;
  max_records = same.max_records;
  index_offset = same.index_offset;
  index_entries = same.index_entries;
  index_stride = same.index_stride;
  overflow_offset = same.overflow_offset;
  extra_param_count = same.extra_param_count;
  names = same.names;
}

IsEmptied-IsGeometry : (h g : Header) → IsEmptied h g → IsGeometry h → IsGeometry g
IsEmptied-IsGeometry h g e v = record {
  rpb_pos = omega (arith, e.records_per_block, v.rpb_pos);
  rpb_small = omega (arith, e.records_per_block, v.rpb_small);
  columns_fit = rw (e.records_per_block, e.num_params) v.columns_fit;
  header_below = omega (arith, e.index_offset, e.index_entries, v.header_below);
}

-- The file has the byte `q`, and it is 0.
abbrev pub IsZero : File → ℕ → Type 0
IsZero f q = (q < f.size) × (f.bytes q ≡ 0)

zero_entries-keep :
    (n i pos q : ℕ) (f : File) (env : ℕ → Outcome)
    → IsZero f q
    → IsZero (zero_entries n i pos f env) q
unfolding zero_entries
zero_entries-keep zero i pos q f env z = z
zero_entries-keep (suc n) i pos q f env z =
    zero_entries-keep n (i + 1) (pos + moved (env i)) q (write_item f pos 8 zeros (env i)) env (
      omega (arith, z.0, size-write_item f pos 8 zeros (env i)),
      bytes-write_item f pos 8 q zeros (env i) z.0 (λ x lt e. sym z.1) ∙ z.1,
    )

write_zeros :
    (pos q : ℕ) (f : File) → pos ≤ q → q < pos + 8 → IsZero (write_item f pos 8 zeros done) q
unfolding write_item
write_zeros pos q f le lt = (
  omega (arith, (size-store_bytes f pos 8 zeros).1),
  bytes-store_inside f pos 8 (q - pos) q zeros (omega arith) (omega arith),
)

-- Zeros that are all written make every byte of the index 0.
zero_entries-IsZero :
    (n i pos q : ℕ) (f : File) (env : ℕ → Outcome)
    → ((k : ℕ) → env k ≡ done)
    → pos ≤ q
    → q < pos + n * 8
    → IsZero (zero_entries n i pos f env) q
unfolding zero_entries moved
zero_entries-IsZero zero i pos q f env all le lt = absurd (omega arith)
zero_entries-IsZero (suc n) i pos q f env all le lt =
    subst (λ o. IsZero (zero_entries n (i + 1) (pos + moved o) (write_item f pos 8 zeros o) env) q)
      (sym (all i))
      (elim (dec_lt q (pos + 8)) [
        | yes a ↦
            zero_entries-keep n (i + 1) (pos + 8) q (write_item f pos 8 zeros done) env
              (write_zeros pos q f le a)
        | no b ↦
            zero_entries-IsZero n (i + 1) (pos + 8) q (write_item f pos 8 zeros done) env all
              (omega arith) (omega arith)
      ])

-- A fold that rebuilds no index writes the header and nothing behind it.
cleared-has_image : (db : Handle) (env : ClearEnv) → has_image (cleared db env) env.fold ≡ false
unfolding has_image fold_len fold_entries
cleared-has_image db env = refl

cleared-IsZero :
    (db : Handle) (env : ClearEnv) (q : ℕ)
    → 584 ≤ q
    → IsZero (cleared db env).file q
    → IsZero (fold_file (cleared db env) env.fold) q
unfolding fold_file
cleared-IsZero db env q far z = rw (cleared-has_image db env) (
    let f = (cleared db env).file in
    let src = encode (cleared db env).header in
    (
      omega (arith, z.0, size-write_item f 0 584 src env.fold.write),
      bytes-write_item f 0 584 q src env.fold.write z.0 (λ x lt e. absurd (omega arith)) ∙ z.1,
    ))

-- tsdb_clear_h, with its zero entries written and its header written and synced, leaves a file that is
-- an empty database of the same geometry and names: the header in it has every counter 0 and is that
-- of the handle, it is a ring that holds no record of any history, every byte of the index is 0, and
-- no sidecar is left. This is for a header whose fields are values of their C types, blocks with
-- room for their records, and an index that starts at byte 584 or later, below 2 ^ 32 in full.
pub clear_locked-InFile :
    (db : Handle) (env : ClearEnv)
    → db.file_open ≡ true
    → Fits db.header
    → IsGeometry db.header
    → 584 ≤ db.header.index_offset
    → data_start db.header < u32
    → fold_ok env.fold ≡ true
    → ((k : ℕ) → env.entry k ≡ done)
    → ((g : Header) × (read_header (clear_locked db env).file ≡ some g)
        × SameHeader g (clear_locked db env).header
        × IsEmptied db.header g
        × ((hist : History) → Rep g (clear_locked db env).file hist))
      × ((q : ℕ)
          → db.header.index_offset ≤ q
          → q < data_start db.header
          → IsZero (clear_locked db env).file q)
      × ((k : ℕ)
          → ((clear_locked db env).side.compact k ≡ none)
            × ((clear_locked db env).side.legacy k ≡ none))
unfolding clear_locked clear_counters fold_done
clear_locked-InFile db env fo fits geo below small ok all =
    let c = cleared db env in
    let (g, e, same) =
      fold_header-InFile c env.fold fo (counters-Fits db.header fits) below small ok in
    let em = SameHeader-IsEmptied db.header g same in
    let folded = fold_header-done c env.fold fo ok in
    (
      (
        g,
        e,
        subst (λ h. SameHeader g h) (sym (ap (λ (x : EspErr × Handle). x.1.header) folded)) same,
        em,
        λ hist.
            Rep-empty g (fold_header c env.fold).1.file hist
              (IsEmptied-IsGeometry db.header g em geo) em.total_records em.oldest_record_idx,
      ),
      λ q lo hi.
          subst (λ f. IsZero f q) (sym (ap (λ (x : EspErr × Handle). x.1.file) folded))
            (cleared-IsZero db env q (omega arith) (
              zero_entries-IsZero db.header.index_entries 0 db.header.index_offset q db.file
                env.entry all lo hi)),
      fold_header-removes c env.fold fo ok,
    )
