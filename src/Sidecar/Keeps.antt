-- ===== src/Sidecar/Keeps.antt =====
-- What tsdb_sidecar_write does not change.
use esp_tsdb.Prelude.{◌≡◌, refl, arith, Bool-cases, inl, inr, ◌∙◌}
use esp_tsdb.Handle.{Handle}
use esp_tsdb.Sidecar.{
  SideEnv, write_compact, write_mirror, sidecar_write, mirror_due, write_small_file,
}
use esp_tsdb.Format.{add32}

-- The database file, its header and the overflow state are as before.
pub record SameData (g h : Handle) : Type 0 where
  pub header : g.header ≡ h.header
  pub file : g.file ≡ h.file
  pub extra : g.extra_param_count ≡ h.extra_param_count
  pub adapted : g.capacity_adapted ≡ h.capacity_adapted

write_compact-SameData : (db : Handle) (env : SideEnv) → SameData (write_compact db env).0 db
unfolding write_compact
write_compact-SameData db env = record { header = refl; file = refl; extra = refl; adapted = refl }

write_mirror-SameData : (db : Handle) (env : SideEnv) → SameData (write_mirror db env).0 db
unfolding write_mirror write_small_file
write_mirror-SameData db env = record {
  header = ground arith;
  file = ground arith;
  extra = ground arith;
  adapted = ground arith;
}

-- tsdb_sidecar_write, whether its two files are written or not, leaves the database file, the header,
-- the overflow count and capacity_adapted as they were.
pub sidecar_write-SameData : (db : Handle) (env : SideEnv) → SameData (sidecar_write db env).1 db
unfolding sidecar_write
sidecar_write-SameData db env =
    let bumped = record db { sidecar_seq = add32 db.sidecar_seq 1 } in
    let (db1, ok) = write_compact bumped env in
    let c = write_compact-SameData bumped env in
    let m = write_mirror-SameData db1 env in
    elim (Bool-cases (mirror_due db1 ok)) [
      | inr e ↦
          rw e (record { header = c.header; file = c.file; extra = c.extra; adapted = c.adapted })
      | inl e ↦ rw e (record {
        header = m.header ∙ c.header;
        file = m.file ∙ c.file;
        extra = m.extra ∙ c.extra;
        adapted = m.adapted ∙ c.adapted;
      })
    ]
