-- ===== src/Open/Fresh.antt =====
-- The file that tsdb_open makes for a new database.
use native.Mathlib.Nat.{le-div_iff_mul-le}
use esp_tsdb.Prelude.{
  ℕ, zero, suc, ◌+◌, ◌-◌, ◌*◌, ◌/◌, ◌≤◌, ◌<◌, ◌≡◌, refl, arith, ◌∙◌, ap, Bool, true, false,
  Bool-cases, inl, inr, Option, none, some, ◌&&◌, ◌==◌,
}
use esp_tsdb.Bytes.{Mem, zeros, get32, get16}
use esp_tsdb.Format.{Header, magic, u32, v4_ext_names_offset, header_size}
use esp_tsdb.Format.Codec.{Fits, SameHeader, encode, decode}
use esp_tsdb.Storage.{File, empty_file, Outcome, done, write_item}
use esp_tsdb.Handle.{Handle}
use esp_tsdb.Header.{
  read_header, write_header, header_is_sane, sane_params, sane_geometry, sane_index, sane_counts,
  sane_overflow, expected_record_size,
}
use esp_tsdb.Header.Stored.{read_header-encode, bytes-write_start, size-write_start}
use esp_tsdb.Lifecycle.{zero_entries}
use esp_tsdb.Ring.{History, Rep, IsGeometry}
use esp_tsdb.Ring.Frame.{bytes-write_item, size-write_item}
use esp_tsdb.Lifecycle.Clear.{Rep-empty}
use esp_tsdb.Config.{Config, config_ok, is_wide, stride_of, rpb_of, entries_of, initial_header}
use esp_tsdb.Sidecar.{sidecar_remove}
use esp_tsdb.Upgrade.{torn_version}
use esp_tsdb.Open.Resume.{header_is_sane-cong}
use esp_tsdb.Open.{OpenEnv, usable, judge_header, put_names, fill_new, create_new}

-- What tsdb_open does not check: a capacity and an index that its own sanity check lets through.
pub record FitsConfig (c : Config) : Type 0 where
  pub checked : config_ok c ≡ true
  pub max_records : c.max_records ≤ 100000000
  pub index_stride : c.index_stride < u32
  pub index_entries : entries_of c ≤ 0x100000

config_params : (c : Config) → config_ok c ≡ true → (0 < c.num_params) × (c.num_params ≤ 64)
unfolding config_ok
config_params c e = ground arith

stride_lem : (c : Config) → c.index_stride < u32 → (0 < stride_of c) × (stride_of c < u32)
unfolding stride_of
stride_lem c lt = ground arith

-- 1016 bytes hold at least one record of at most 132 bytes.
rpb_lem :
    (c : Config) → c.num_params ≤ 64 → (0 < rpb_of c) × (rpb_of c * (4 + c.num_params * 2) ≤ 1016)
unfolding rpb_of
rpb_lem c le =
    ((le-div_iff_mul-le {x = 1} pos).1 (omega arith), (le-div_iff_mul-le pos).0 (omega arith))
  where
    pos : 0 < 4 + c.num_params * 2
    pos = omega arith

module _ (c : Config) (fc : FitsConfig c) where
  abbrev h : Header
  h = initial_header c

  np : (0 < c.num_params) × (c.num_params ≤ 64)
  np = config_params c fc.checked

  rpb : (0 < rpb_of c) × (rpb_of c * (4 + c.num_params * 2) ≤ 1016)
  rpb = rpb_lem c np.1

  rpb_small : rpb_of c ≤ 1016
  rpb_small = small (rpb_of c) c.num_params rpb.1
    where
      small : (r n : ℕ) → r * (4 + n * 2) ≤ 1016 → r ≤ 1016
      small r n le = omega (arith, rpb.0)

  initial_header-Fits : Fits h
  unfolding initial_header decode get32 get16
  initial_header-Fits = record {
    magic_word = omega arith;
    version = ground arith;
    num_params = omega (arith, np.1);
    param_size = omega arith;
    record_size = omega (arith, np.1);
    records_per_block = omega (arith, rpb_small);
    max_records = omega (arith, fc.max_records);
    total_records = omega arith;
    oldest_record_idx = omega arith;
    newest_record_idx = omega arith;
    oldest_timestamp = omega arith;
    newest_timestamp = omega arith;
    index_offset = ground arith;
    index_entries = omega (arith, fc.index_entries);
    index_stride = (stride_lem c fc.index_stride).1;
    total_writes = omega arith;
    total_evictions = omega arith;
    base_params = omega (arith, np.1);
    extra_param_count = omega arith;
    overflow_record_size = omega arith;
    overflow_offset = omega arith;
    first_overflow_record_idx = omega arith;
    reserved2 = omega arith;
  }

  all_sane :
      (p q r s t : Bool)
      → p ≡ true
      → q ≡ true
      → r ≡ true
      → s ≡ true
      → t ≡ true
      → (p && q && r && s && t) ≡ true
  all_sane p q r s t a b d e f = ground arith

  params-sane : sane_params h ≡ true
  unfolding sane_params initial_header is_wide
  params-sane = ground (arith, np.0, np.1)

  rpb_max : rpb_of c ≡ (1024 - 8) / expected_record_size c.num_params
  unfolding rpb_of
  rpb_max =
      let e : expected_record_size c.num_params ≡ 4 + c.num_params * 2 = omega (arith, np.1) in
      rw e refl

  geometry-sane : sane_geometry h ≡ true
  unfolding sane_geometry initial_header
  geometry-sane =
      let e : expected_record_size c.num_params ≡ 4 + c.num_params * 2 = omega (arith, np.1) in
      ground (arith, e, rpb.0, rpb_max)

  index-sane : sane_index h ≡ true
  unfolding sane_index initial_header
  index-sane = ground (arith, fc.index_entries, (stride_lem c fc.index_stride).0)

  counts-sane : sane_counts h ≡ true
  unfolding sane_counts initial_header decode get32
  counts-sane = ground (arith, fc.max_records)

  overflow-sane : sane_overflow h ≡ true
  unfolding sane_overflow initial_header decode
  overflow-sane = refl

  initial_header-IsSane : header_is_sane h ≡ true
  unfolding header_is_sane
  initial_header-IsSane =
      all_sane _ _ _ _ _ params-sane geometry-sane index-sane counts-sane overflow-sane

  initial_header-IsGeometry : IsGeometry h
  unfolding initial_header
  initial_header-IsGeometry = record {
    rpb_pos = rpb.0;
    rpb_small = omega (arith, rpb_small);
    columns_fit = omega (arith, rpb.1);
    header_below = ground arith;
  }

-- A file that keeps the 584 bytes of the header.
pub record KeepsHeader (f g : File) : Type 0 where
  pub size : f.size ≤ g.size
  pub bytes : (q : ℕ) → q < 584 → q < f.size → g.bytes q ≡ f.bytes q

KeepsHeader-trans : {f g k : File} → KeepsHeader f g → KeepsHeader g k → KeepsHeader f k
KeepsHeader-trans {f} a b = record {
  size = omega (arith, a.size, b.size);
  bytes = λ q lt inside. b.bytes q lt (omega (arith, a.size)) ∙ a.bytes q lt inside;
}

pub KeepsHeader-write :
    (f : File) (off n : ℕ) (src : Mem) (o : Outcome)
    → 584 ≤ off
    → KeepsHeader f (write_item f off n src o)
KeepsHeader-write f off n src o le = record {
  size = size-write_item f off n src o;
  bytes = λ q lt inside. bytes-write_item f off n q src o inside (λ x lx e. absurd (omega arith));
}

KeepsHeader-zeros :
    (n i pos : ℕ) (f : File) (env : ℕ → Outcome)
    → 584 ≤ pos
    → KeepsHeader f (zero_entries n i pos f env)
unfolding zero_entries
KeepsHeader-zeros zero i pos f env le = record { size = omega arith; bytes = λ q lt inside. refl }
KeepsHeader-zeros (suc n) i pos f env le =
    KeepsHeader-trans (KeepsHeader-write f pos 8 zeros (env i) le)
      (KeepsHeader-zeros n (i + 1) _ (write_item f pos 8 zeros (env i)) env (omega arith))

KeepsHeader-names :
    (n i pos : ℕ) (names : Option (ℕ → Option Mem)) (env : ℕ → Outcome) (f : File)
    → 584 ≤ pos
    → KeepsHeader f (put_names n i pos names env f)
unfolding put_names
KeepsHeader-names zero i pos names env f le = record {
  size = omega arith;
  bytes = λ q lt inside. refl;
}
KeepsHeader-names (suc n) i pos names env f le =
    KeepsHeader-trans (KeepsHeader-write f pos _ _ (env i) le)
      (KeepsHeader-names n (i + 1) _ names env _ (omega arith))

KeepsHeader-fill :
    (c : Config) (h : Header) (env : OpenEnv) (f : File)
    → 584 ≤ h.index_offset
    → KeepsHeader f (fill_new c h env f)
unfolding fill_new
KeepsHeader-fill c h env f le = elim (Bool-cases (is_wide c)) [
  | inl e ↦ rw e (
      KeepsHeader-trans
        (KeepsHeader-names (c.num_params - 16) 16 v4_ext_names_offset c.param_names env.name f
          (omega arith))
        (KeepsHeader-zeros h.index_entries 0 h.index_offset
          (put_names (c.num_params - 16) 16 v4_ext_names_offset c.param_names env.name f) env.entry
          le))
  | inr e ↦ rw e (KeepsHeader-zeros h.index_entries 0 h.index_offset f env.entry le)
]

new_file :
    (c : Config) (h : Header) (env : OpenEnv)
    → Fits h
    → 584 ≤ h.index_offset
    → (g : Header) × (read_header
          (fill_new c h env (write_item empty_file 0 header_size (encode h) done))
        ≡ some g)
      × SameHeader g h
new_file c h env fits le =
    let f = write_item empty_file 0 header_size (encode h) done in
    let long : 584 ≤ f.size = size-write_start empty_file 584 (encode h) in
    let k = KeepsHeader-fill c h env f le in
    read_header-encode (fill_new c h env f) h fits (omega (arith, k.size))
      (λ q lt. k.bytes q lt (omega arith) ∙ bytes-write_start empty_file 584 q (encode h) lt)

pub usable_lem :
    (f : File) (g : Header)
    → read_header f ≡ some g
    → g.magic_word ≡ magic
    → (g.version == torn_version) ≡ false
    → header_is_sane g ≡ true
    → judge_header f ≡ usable g
unfolding judge_header
usable_lem f g e m v s =
    let t : (g.magic_word == magic) ≡ true = ground arith in simp (e, t, v, s, judge_header) refl

initial-facts :
    (c : Config)
    → ((initial_header c).magic_word ≡ magic)
      × (((initial_header c).version == torn_version) ≡ false)
      × (584 ≤ (initial_header c).index_offset)
      × ((initial_header c).total_records ≡ 0)
      × ((initial_header c).oldest_record_idx ≡ 0)
unfolding initial_header decode get32
initial-facts c = (refl, ground arith, ground arith, refl, refl)

-- When the file can be created and its header written, tsdb_open makes a database of 0 records, with
-- no sidecar beside it, whose file the next tsdb_open takes as it is: the header in it passes every
-- check and has every field of the handle's. How the writes of the extended names and of the index
-- end does not matter. This is for a configuration that tsdb_open accepts, with a capacity of at most
-- 100000000 and at most 1048576 index entries.
pub create_new-Reopens :
    (db : Handle) (c : Config) (env : OpenEnv) (hist : History)
    → FitsConfig c
    → env.creates ≡ true
    → env.header ≡ done
    → (r : Handle) × (create_new db c env ≡ some r)
      × Rep r.header r.file hist
      × (r.header.total_records ≡ 0)
      × ((k : ℕ) → (r.side.compact k ≡ none) × (r.side.legacy k ≡ none))
      × ((g : Header) × (judge_header r.file ≡ usable g) × SameHeader g r.header)
unfolding create_new write_header sidecar_remove
create_new-Reopens db c env hist fc creates written =
    let h = initial_header c in
    let (m, v, le, t, o) = initial-facts c in
    let (g, e, same) = new_file c h env (initial_header-Fits c fc) le in
    let f = fill_new c h env (write_item empty_file 0 header_size (encode h) done) in
    let r = record db { header = h; file = f; side = sidecar_remove db.side; sidecar_seq = 0 } in
    (
      r,
      simp (creates, written, create_new) refl,
      Rep-empty h f hist (initial_header-IsGeometry c fc) t o,
      t,
      λ k. (refl, refl),
      (
        g,
        usable_lem f g e (same.magic_word ∙ m) (ap (λ x. x == torn_version) same.version ∙ v)
            (header_is_sane-cong g h same ∙ initial_header-IsSane c fc),
        same,
      ),
    )
