-- ===== src/Sidecar/Crash.antt =====
-- tsdb_sidecar_write and then tsdb_sidecar_load, with a power cut in between.
use esp_tsdb.Prelude.{ℕ, ◌+◌, ◌<◌, ◌≡◌, ◌⊎◌, refl, Bool, true, Bool-cases, inl, inr}
use esp_tsdb.Format.{Header, esp_ok, u32}
use esp_tsdb.Format.Codec.{Fits}
use esp_tsdb.Storage.{cut}
use esp_tsdb.Handle.{Handle, SideFiles}
use esp_tsdb.Sidecar.{
  sidecar2_size, sidecar_size, SideEnv, write_compact, write_mirror, mirror_due, sidecar_write,
}
use esp_tsdb.Sidecar.InStep.{InStep, IsCounted}
use esp_tsdb.Sidecar.Halves.{IsWhole, has_dir, bumped, whole_file}
use esp_tsdb.Sidecar.Recovered.{
  compact-IsCounted, mirror-IsCounted, Recovers, compact-Settled, mirror-Settled,
  torn_mirror-Recovers, torn_slot-Recovers,
}

-- The mirror goes through, or its file cannot be opened or is cut before its last byte.
pub data MirrorEnds (env : SideEnv) : Type 0 where
  whole : IsWhole env.mirror_write → MirrorEnds env
  torn : (k : ℕ) (e : Bool) → env.mirror_write.item ≡ cut k e → k < sidecar_size → MirrorEnds env

mirror-Recovers :
    (db : Handle) (env : SideEnv)
    → InStep db
    → Fits db.header
    → db.sidecar_seq + 1 < u32
    → IsWhole env.slot_write
    → has_dir db env ≡ true
    → MirrorEnds env
    → Recovers (write_mirror (write_compact (bumped db) env).0 env).0.side db.header
mirror-Recovers db env st fits room w dir (whole m) = (mirror-Settled db env st fits room w dir m).1
mirror-Recovers db env st fits room w dir (torn k e item short) =
    torn_mirror-Recovers db env st fits room w dir k e item short

-- tsdb_sidecar_write returns ESP_OK when its compact slot is written in full, even if its mirror is
-- not opened or is cut before its last byte, and tsdb_sidecar_load then gives back the whole header of
-- the handle: to any handle on these side files, over any header of the file with the same names.
-- This is for a handle in step with its side files, a header whose fields are values of their C
-- types, and a number that does not wrap.
pub sidecar_write-Recovers :
    (db : Handle) (env : SideEnv)
    → InStep db
    → Fits db.header
    → db.sidecar_seq + 1 < u32
    → IsWhole env.slot_write
    → has_dir db env ≡ true
    → MirrorEnds env
    → ((sidecar_write db env).0 ≡ esp_ok) × Recovers (sidecar_write db env).1.side db.header
unfolding sidecar_write
sidecar_write-Recovers db env st fits room w dir ends =
    let ok = (whole_file (bumped db) env w dir).0 in
    elim (Bool-cases (mirror_due (write_compact (bumped db) env).0 true)) [
      | inl e ↦ rw (ok, e) (refl, mirror-Recovers db env st fits room w dir ends)
      | inr e ↦ rw (ok, e) (refl, (compact-Settled db env st fits room w dir).1)
    ]

-- tsdb_sidecar_write counts sidecar_seq one up, and keeps the counters of the handle exactly those of
-- its side files: legacy_seq is the number of the newest mirror, sidecar_seq the larger of the numbers
-- of the newest slots, and the next slot of each kind is not the newest one. This is when the compact
-- slot is written in full and so is the mirror, where it is due, for a header whose fields are values
-- of their C types and a number that does not wrap.
pub sidecar_write-IsCounted :
    (db : Handle) (env : SideEnv)
    → IsCounted db
    → Fits db.header
    → db.sidecar_seq + 1 < u32
    → IsWhole env.slot_write
    → has_dir db env ≡ true
    → IsWhole env.mirror_write
    → IsCounted (sidecar_write db env).1
      × ((sidecar_write db env).1.sidecar_seq ≡ db.sidecar_seq + 1)
unfolding sidecar_write
sidecar_write-IsCounted db env st fits room w dir m =
    let ok = (whole_file (bumped db) env w dir).0 in
    elim (Bool-cases (mirror_due (write_compact (bumped db) env).0 true)) [
      | inl e ↦ rw (ok, e) (mirror-IsCounted db env st.in_step fits room w dir m)
      | inr e ↦ rw (ok, e) (compact-IsCounted db env st.in_step fits room w dir st.legacy)
    ]

-- The side files that a power cut during tsdb_sidecar_write may leave.
pub data CutAt (db : Handle) : SideFiles → Type 0 where
  at_start : CutAt db db.side
  in_slot :
      (env : SideEnv) (k : ℕ) (e : Bool)
      → env.slot_write.item ≡ cut k e
      → k < sidecar2_size
      → CutAt db (write_compact (bumped db) env).0.side
  after_slot :
      (env : SideEnv)
      → IsWhole env.slot_write
      → has_dir db env ≡ true
      → CutAt db (write_compact (bumped db) env).0.side
  at_mirror :
      (env : SideEnv)
      → IsWhole env.slot_write
      → has_dir db env ≡ true
      → MirrorEnds env
      → CutAt db (write_mirror (write_compact (bumped db) env).0 env).0.side

-- A power cut at any point of tsdb_sidecar_write, in the middle of either file included, leaves side
-- files from which tsdb_sidecar_load gives back the header that was stored before or the new one.
-- This is for a handle in step with its side files, a header whose fields are values of their C types
-- and a number that does not wrap.
pub sidecar_write-SurvivesCut :
    (db : Handle) (old : Header) (side : SideFiles)
    → InStep db
    → Fits db.header
    → db.sidecar_seq + 1 < u32
    → Recovers db.side old
    → CutAt db side
    → Recovers side old ⊎ Recovers side db.header
sidecar_write-SurvivesCut db old side st fits room rec at_start = inl rec
sidecar_write-SurvivesCut db old side st fits room rec (in_slot env k e item short) =
    inl (torn_slot-Recovers db env st fits room k e old item short rec)
sidecar_write-SurvivesCut db old side st fits room rec (after_slot env w dir) =
    inr (compact-Settled db env st fits room w dir).1
sidecar_write-SurvivesCut db old side st fits room rec (at_mirror env w dir ends) =
    inr (mirror-Recovers db env st fits room w dir ends)
