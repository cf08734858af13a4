-- ===== src/Ring/Commit.antt =====
-- What tsdb_write_h does after its block write, seen from the ring.
use mathlib.Core.Path.{subst}
use esp_tsdb.Prelude.{ℕ, ◌≡◌, arith, refl, ◌∙◌, sym, Bool, true, false}
use esp_tsdb.Storage.{Outcome}
use esp_tsdb.Handle.{Handle}
use esp_tsdb.Write.{
  Values, WriteEnv, count_record, finish_write, mark_index, refresh_oldest, commit_record,
  write_overflow,
}
use esp_tsdb.Sidecar.Keeps.{sidecar_write-SameData}
use esp_tsdb.Ring.{Row}
use esp_tsdb.Ring.Keep.{SameRing}

pub write_overflow_none :
    (db : Handle) (v : Values) (o : Outcome) → db.extra_param_count ≡ 0 → write_overflow db v o ≡ db
unfolding write_overflow
write_overflow_none db v o e = ground arith

mark_index-same :
    (idx : ℕ) (db : Handle)
    → ((mark_index idx db).header ≡ db.header) × ((mark_index idx db).file ≡ db.file)
unfolding mark_index
mark_index-same idx db = (ground arith, ground arith)

refresh_oldest-SameRing :
    (ev : Bool) (ts : ℕ) (db : Handle)
    → SameRing db.header (refresh_oldest ev ts db).header
      × ((refresh_oldest ev ts db).file ≡ db.file)
unfolding refresh_oldest
refresh_oldest-SameRing true ts db = (
  record { rpb = refl; np = refl; io = refl; ie = refl; max = refl; total = refl; oldest = refl },
  refl,
)
refresh_oldest-SameRing false ts db = (ground arith, ground arith)

commit_record-SameRing :
    (ev : Bool) (idx ts : ℕ) (env : WriteEnv) (d : Handle)
    → SameRing (count_record d.header idx ts) (commit_record ev idx ts env d).header
      × ((commit_record ev idx ts env d).file ≡ d.file)
unfolding commit_record
commit_record-SameRing ev idx ts env d =
    let d2 = record d { header = count_record d.header idx ts } in
    let r = refresh_oldest ev ts d2 in
    let (hm, fm) = mark_index-same idx r in
    let s = sidecar_write-SameData (mark_index idx r) env.sidecar in
    let (hr, fr) = refresh_oldest-SameRing ev ts d2 in
    (subst (λ h. SameRing d2.header h) (sym (s.header ∙ hm)) hr, s.file ∙ fm ∙ fr)

-- With no overflow region the rest of tsdb_write_h touches neither the file nor the ring's fields.
pub finish_write-SameRing :
    (ev : Bool) (idx : ℕ) (row : Row) (env : WriteEnv) (d : Handle)
    → d.extra_param_count ≡ 0
    → SameRing (count_record d.header idx row.ts) (finish_write ev idx row.ts row.vals env d).header
      × ((finish_write ev idx row.ts row.vals env d).file ≡ d.file)
unfolding finish_write
finish_write-SameRing ev idx row env d none_extra =
    rw (write_overflow_none d row.vals env.overflow none_extra)
      (commit_record-SameRing ev idx row.ts env d)
