-- ===== src/Open/Resume.antt =====
-- tsdb_open on a database that is there, with sidecars that are ahead of its header.
use mathlib.Core.Path.{subst}
use esp_tsdb.Prelude.{
  ℕ, ◌≤◌, ◌<◌, ◌≡◌, refl, arith, ◌∙◌, sym, ap, Bool, true, false, some, ◌&&◌, ltb, ◌==◌,
}
use esp_tsdb.Format.{Header, magic}
use esp_tsdb.Format.Codec.{SameHeader}
use esp_tsdb.Storage.{File}
use esp_tsdb.Handle.{Handle}
use esp_tsdb.Header.{
  header_is_sane, sane_params, sane_geometry, sane_index, sane_counts, sane_overflow,
}
use esp_tsdb.Ring.{History, Rep}
use esp_tsdb.Ring.Keep.{SameRing, Rep-cong}
use esp_tsdb.Sidecar.{sidecar_load}
use esp_tsdb.Sidecar.Recovered.{Recovers}
use esp_tsdb.Migrate.{Disk, migrate_recover}
use esp_tsdb.Config.{Config}
use esp_tsdb.Upgrade.{UpgradeEnv, upgrade}
use esp_tsdb.Open.{
  OpenEnv, usable, judge_header, is_ahead, adopt_sidecar, load_overflow, fix_base_params,
  finish_existing, open_existing, open_file,
}

pub header_is_sane-cong : (g h : Header) → SameHeader g h → header_is_sane g ≡ header_is_sane h
unfolding header_is_sane sane_params sane_geometry sane_index sane_counts sane_overflow
header_is_sane-cong g h e =
    rw
      (
        e.num_params, e.version, e.base_params, e.param_size, e.record_size, e.records_per_block,
        e.index_offset, e.index_entries, e.index_stride, e.max_records, e.total_records,
        e.extra_param_count, e.overflow_record_size,
      )
      refl

-- What the header in the file has in common with the later state `h` of the database.
pub record IsEarlier (g h : Header) : Type 0 where
  pub num_params : g.num_params ≡ h.num_params
  pub records_per_block : g.records_per_block ≡ h.records_per_block
  pub index_offset : g.index_offset ≡ h.index_offset
  pub total_records : g.total_records ≤ h.total_records
  pub names : (i : ℕ) → i < 512 → g.param_names i ≡ h.param_names i

-- A header that tsdb_open takes.
pub record IsCurrent (h : Header) (c : Config) : Type 0 where
  pub magic_word : h.magic_word ≡ magic
  pub sane : header_is_sane h ≡ true
  pub version : 3 ≤ h.version
  pub num_params : h.num_params ≡ c.num_params

six :
    (a b c d e f : Bool)
    → a ≡ true
    → b ≡ true
    → c ≡ true
    → d ≡ true
    → e ≡ true
    → f ≡ true
    → (a && b && c && d && e && f) ≡ true
six a b c d e f p q r s t u = ground arith

is_ahead-true :
    (s g h : Header) (c : Config)
    → SameHeader s h
    → IsEarlier g h
    → IsCurrent h c
    → is_ahead s g ≡ true
unfolding is_ahead
is_ahead-true s g h c e a k =
    six _ _ _ _ _ _ (ground (arith, e.magic_word, k.magic_word))
      (header_is_sane-cong s h e ∙ k.sane) (ground (arith, e.num_params, a.num_params))
      (ground (arith, e.records_per_block, a.records_per_block))
      (ground (arith, e.index_offset, a.index_offset))
      (ground (arith, e.total_records, a.total_records))

load-file : (db : Handle) (base : Header) → (sidecar_load db base).0.file ≡ db.file
unfolding sidecar_load
load-file db base = refl

adopted :
    (db : Handle) (g s : Header)
    → (sidecar_load db g).1 ≡ some s
    → is_ahead s g ≡ true
    → ((adopt_sidecar db g).header ≡ s)
      × ((adopt_sidecar db g).index_stale ≡ true)
      × ((adopt_sidecar db g).file ≡ db.file)
unfolding adopt_sidecar
adopted db g s e a = (
  simp (e, a, adopt_sidecar) refl,
  simp (e, a, adopt_sidecar) refl,
  simp (e, a, adopt_sidecar) (load-file db g),
)

SameRing-fix : (h : Header) → SameRing h (fix_base_params h)
unfolding fix_base_params
SameRing-fix h = record {
  rpb = ground arith;
  np = ground arith;
  io = ground arith;
  ie = ground arith;
  max = ground arith;
  total = ground arith;
  oldest = ground arith;
}

upgrade-current :
    (h : Header) (f : File) (env : UpgradeEnv) → 3 ≤ h.version → upgrade h f env ≡ (h, f)
unfolding upgrade
upgrade-current h f env le =
    let t : ltb h.version 3 ≡ false = ground arith in simp (t, upgrade) refl

fix-fields :
    (h : Header)
    → ((fix_base_params h).version ≡ h.version) × ((fix_base_params h).num_params ≡ h.num_params)
unfolding fix_base_params
fix-fields h = (ground arith, ground arith)

load_overflow-same :
    (db : Handle)
    → ((load_overflow db).header ≡ db.header)
      × ((load_overflow db).file ≡ db.file)
      × ((load_overflow db).index_stale ≡ db.index_stale)
unfolding load_overflow
load_overflow-same db = (ground arith, ground arith, ground arith)

-- A database with a current header is opened as it is.
pub finish_existing-current :
    (db : Handle) (c : Config) (env : UpgradeEnv)
    → 3 ≤ db.header.version
    → db.header.num_params ≡ c.num_params
    → (d : Handle) × (finish_existing db c env ≡ some d)
      × (d.header ≡ fix_base_params db.header)
      × (d.file ≡ db.file)
      × (d.index_stale ≡ db.index_stale)
unfolding finish_existing
finish_existing-current db c env ver np =
    let h = fix_base_params db.header in
    let u = upgrade-current h db.file env (omega (arith, ver, (fix-fields db.header).0)) in
    let t : (h.num_params == c.num_params) ≡ true = ground (arith, (fix-fields db.header).1, np) in
    let d = record db { header = h } in
    (
      load_overflow d,
      simp (u, t, finish_existing) refl,
      (load_overflow-same d).0,
      (load_overflow-same d).1,
      (load_overflow-same d).2,
    )

SameHeader-SameRing : (g h : Header) → SameHeader g h → SameRing h g
SameHeader-SameRing g h e = record {
  rpb = sym e.records_per_block;
  np = sym e.num_params;
  io = sym e.index_offset;
  ie = sym e.index_entries;
  max = sym e.max_records;
  total = sym e.total_records;
  oldest = sym e.oldest_record_idx;
}

SameRing-trans : {f g h : Header} → SameRing f g → SameRing g h → SameRing f h
SameRing-trans a b = record {
  rpb = a.rpb ∙ b.rpb;
  np = a.np ∙ b.np;
  io = a.io ∙ b.io;
  ie = a.ie ∙ b.ie;
  max = a.max ∙ b.max;
  total = a.total ∙ b.total;
  oldest = a.oldest ∙ b.oldest;
}

open_existing-usable :
    (db : Handle) (c : Config) (env : OpenEnv) (g : Header)
    → judge_header db.file ≡ usable g
    → open_existing db c env ≡ finish_existing (adopt_sidecar db g) c env.upgrade
unfolding open_existing
open_existing-usable db c env g e = simp (e, open_existing) refl

-- When the side files give back the state `h`, the header in the file is a usable earlier one and the
-- configuration has the columns of `h`, tsdb_open on a file that fopen gives returns a handle with
-- the rows of `h`: what history the file holds under `h` it holds under the header of the new handle,
-- whose index is marked stale. This is for a state that passes the sanity check, of version 3 or
-- later.
pub open_file-Recovers :
    (db : Handle) (disk : Disk) (c : Config) (env : OpenEnv) (f : File) (g h : Header)
    (hist : History)
    → (migrate_recover disk env.recover).main ≡ some f
    → env.opens ≡ true
    → judge_header f ≡ usable g
    → Recovers db.side h
    → IsEarlier g h
    → IsCurrent h c
    → Rep h f hist
    → (r : Handle) × (open_file db disk c env ≡ some r)
      × Rep r.header r.file hist
      × (r.header.total_records ≡ h.total_records)
      × (r.index_stale ≡ true)
unfolding open_file Recovers
open_file-Recovers db disk c env f g h hist main opens judge rec early cur rep =
    let b = record db { file = f } in
    let (s, load, same) = rec b g refl early.names in
    let (ha, ia, fa) = adopted b g s load (is_ahead-true s g h c same early cur) in
    let (r, e, hr, fr, ir) =
      finish_existing-current (adopt_sidecar b g) c env.upgrade
        (omega (arith, ap (λ (x : Header). x.version) ha, same.version, cur.version))
        (ap (λ (x : Header). x.num_params) ha ∙ same.num_params ∙ cur.num_params) in
    let ring : SameRing h r.header =
      SameRing-trans (SameHeader-SameRing s h same)
        (subst (λ x. SameRing s x) (ap fix_base_params (sym ha) ∙ sym hr) (SameRing-fix s)) in
    (
      r,
      simp (main, opens, open_file) (open_existing-usable b c env g judge ∙ e),
      subst (λ x. Rep r.header x hist) (sym (fr ∙ fa)) (Rep-cong h r.header f hist ring rep),
      sym ring.total,
      ir ∙ ia,
    )
