-- ===== src/Sidecar/Halves.antt =====
-- The two halves of tsdb_sidecar_write, whole or cut, as tsdb_sidecar_load reads what they leave.
use esp_tsdb.Prelude.{
  ℕ, ◌+◌, ◌%◌, ◌<◌, ◌≡◌, ◌⊎◌, refl, arith, ◌∙◌, ap, Bool, true, false, Option, some, ◌&&◌, ◌||◌,
  if◌then◌else◌, Bool-cases, inl, inr,
}
use esp_tsdb.Bytes.{Mem, from_offset}
use esp_tsdb.Format.{u32, add32}
use esp_tsdb.Storage.{File, empty_file, done, cut, write_item}
use esp_tsdb.Handle.{Handle}
use esp_tsdb.Sidecar.{
  sidecar2_size, sidecar_size, sidecar2_bytes, sidecar_bytes, SmallWrite, SideEnv, write_small_file,
  set_slot, write_compact, write_mirror, Slot, slot_seq, read_compact, read_legacy, newest,
  newest_compact, newest_legacy,
}
use esp_tsdb.Sidecar.Slots.{compact_content, read_compact-written}
use esp_tsdb.Sidecar.Mirror.{
  mirror_content, read_legacy-written, read_compact-torn, read_legacy-torn,
}
use esp_tsdb.Sidecar.Newest.{newest_of-written, newest_of-lost, newest_of-same}
use esp_tsdb.Sidecar.InStep.{read_compact-slot, read_legacy-slot}

-- tsdb_write_small_file_ goes through.
pub record IsWhole (w : SmallWrite) : Type 0 where
  pub opens : w.opens ≡ true
  pub item : w.item ≡ done
  pub closes : w.closes ≡ true

-- <db>.d is there or can be made.
abbrev pub has_dir : Handle → SideEnv → Bool
has_dir db env = if db.side_dir_ready then db.side.dir else db.side.dir || env.makes_dir

write_whole :
    (w : SmallWrite) (old : Option File) (len : ℕ) (bytes : Mem)
    → IsWhole w
    → write_small_file w old len bytes ≡ (some (write_item empty_file 0 len bytes done), true)
unfolding write_small_file
write_whole w old len bytes h = simp (h.opens, h.item, h.closes, write_small_file) refl

-- What a write leaves that is cut before its last byte, or whose file cannot be opened.
write_torn :
    (w : SmallWrite) (old : Option File) (len : ℕ) (bytes : Mem) (k : ℕ) (e : Bool)
    → w.item ≡ cut k e
    → (write_small_file w old len bytes ≡ (old, false))
      ⊎ (write_small_file w old len bytes
          ≡ (some (write_item empty_file 0 len bytes (cut k e)), false))
unfolding write_small_file
write_torn w old len bytes k e item = elim (Bool-cases w.opens) [
  | inl o ↦ inr (simp (o, item, write_small_file) refl)
  | inr o ↦ inl (simp (o, write_small_file) refl)
]

pub mod_again : (n : ℕ) → (n + 1) % 2 ≡ (n + 1) % 2 % 2
mod_again n = omega arith

-- The handle with the number of this write.
abbrev pub bumped : Handle → Handle
bumped db = record db { sidecar_seq = add32 db.sidecar_seq 1 }

-- The compact slot that a whole write leaves.
abbrev pub slot_of : (db : Handle) → db.sidecar_seq < u32 → db.legacy_seq < u32 → ℕ → Slot
slot_of db s l i = record {
  seq = db.sidecar_seq;
  legacy_seq = db.legacy_seq;
  slot = i;
  content = compact_content db.header db.sidecar_seq db.legacy_seq s l;
}

-- The mirror that a whole write leaves.
abbrev pub mirror_slot : (db : Handle) → db.sidecar_seq < u32 → ℕ → Slot
mirror_slot db s i = record {
  seq = db.sidecar_seq;
  legacy_seq = 0;
  slot = i;
  content = from_offset (mirror_content db.header db.sidecar_seq s) 12;
}

-- The first half of the write, with the number already counted.
module _ (db : Handle) (env : SideEnv) where
  pub write_compact-legacy :
      (newest_legacy (write_compact db env).0.side ≡ newest_legacy db.side)
      × ((write_compact db env).0.header ≡ db.header)
      × ((write_compact db env).0.sidecar_seq ≡ db.sidecar_seq)
      × ((write_compact db env).0.legacy_seq ≡ db.legacy_seq)
      × ((write_compact db env).0.legacy_slot ≡ db.legacy_slot)
      × ((write_compact db env).0.sidecar_slot ≡ (db.sidecar_slot + 1) % 2)
  unfolding write_compact newest_legacy
  write_compact-legacy = (refl, refl, refl, refl, refl, refl)

  pub whole_file :
      IsWhole env.slot_write
      → has_dir db env ≡ true
      → ((write_compact db env).1 ≡ true)
        × ((write_compact db env).0.side.compact
            ≡ set_slot db.side.compact ((db.sidecar_slot + 1) % 2) (
                some (
                  write_item empty_file 0 sidecar2_size
                    (sidecar2_bytes db.header db.sidecar_seq db.legacy_seq)
                    done)))
  unfolding write_compact
  whole_file w dir =
      let o : (env.slot_write.opens && has_dir db env) ≡ true = simp (w.opens, dir) refl in
      let e =
        write_whole (record (env.slot_write) { opens = env.slot_write.opens && has_dir db env })
          (db.side.compact ((db.sidecar_slot + 1) % 2)) sidecar2_size
          (sidecar2_bytes db.header db.sidecar_seq db.legacy_seq)
          (record { opens = o; item = w.item; closes = w.closes }) in
      (
        ap (λ (x : Option File × Bool). x.1) e,
        ap (λ (x : Option File × Bool). set_slot db.side.compact ((db.sidecar_slot + 1) % 2) x.0) e,
      )

  -- A whole compact slot is the newest.
  pub newest-whole :
      (s : db.sidecar_seq < u32) (l : db.legacy_seq < u32)
      → slot_seq (newest_compact db.side) < db.sidecar_seq
      → IsWhole env.slot_write
      → has_dir db env ≡ true
      → newest_compact (write_compact db env).0.side
        ≡ some (slot_of db s l ((db.sidecar_slot + 1) % 2 % 2))
  unfolding newest_compact
  newest-whole s l lt w dir =
      let (ok, e) = whole_file w dir in
      rw e (
        newest_of-written read_compact db.side.compact ((db.sidecar_slot + 1) % 2)
          (some (
            write_item empty_file 0 sidecar2_size
              (sidecar2_bytes db.header db.sidecar_seq db.legacy_seq) done))
          (slot_of db s l ((db.sidecar_slot + 1) % 2 % 2))
          (read_compact-written db.header db.sidecar_seq db.legacy_seq s l
            ((db.sidecar_slot + 1) % 2 % 2))
          lt)

  -- A slot that is not opened or not written to its end leaves the newest.
  pub newest-torn :
      (k : ℕ) (e : Bool)
      → ((s : Slot) → newest_compact db.side ≡ some s → s.slot ≡ db.sidecar_slot)
      → env.slot_write.item ≡ cut k e
      → k < sidecar2_size
      → newest_compact (write_compact db env).0.side ≡ newest_compact db.side
  unfolding newest_compact write_compact
  newest-torn k e cur item short =
      let σ = (db.sidecar_slot + 1) % 2 in
      let bytes = sidecar2_bytes db.header db.sidecar_seq db.legacy_seq in
      elim (write_torn (record (env.slot_write) { opens = env.slot_write.opens && has_dir db env })
        (db.side.compact σ) sidecar2_size bytes k e item) [
          | inl t ↦ newest_of-same read_compact db.side.compact σ _ (
              ap (λ (x : Option File × Bool). x.0) t
              ∙ ap db.side.compact (mod_again db.sidecar_slot))
          | inr t ↦
              newest_of-lost read_compact db.side.compact db.sidecar_slot _ read_compact-slot cur (
                ap (λ (x : Option File × Bool). read_compact x.0 σ) t
                ∙ read_compact-torn k σ bytes e short)
        ]

  pub mirror_file-whole :
      IsWhole env.mirror_write
      → write_mirror db env ≡ (
        record db {
          side = record (db.side) {
            legacy = set_slot db.side.legacy ((db.legacy_slot + 1) % 2) (
                some (
                  write_item empty_file 0 sidecar_size
                    (sidecar_bytes db.header db.sidecar_seq)
                    done));
          };
          legacy_slot = (db.legacy_slot + 1) % 2;
          legacy_seq = db.sidecar_seq;
          legacy_mirrored = true;
        },
        true,
      )
  unfolding write_mirror
  mirror_file-whole w =
      let e =
        write_whole env.mirror_write (db.side.legacy ((db.legacy_slot + 1) % 2)) sidecar_size
          (sidecar_bytes db.header db.sidecar_seq) w in
      simp (e, write_mirror) refl

  pub newest_legacy-whole :
      (s : db.sidecar_seq < u32)
      → slot_seq (newest_legacy db.side) < db.sidecar_seq
      → IsWhole env.mirror_write
      → newest_legacy (write_mirror db env).0.side
        ≡ some (mirror_slot db s ((db.legacy_slot + 1) % 2 % 2))
  unfolding newest_legacy
  newest_legacy-whole s lt w = rw (mirror_file-whole w) (
      newest_of-written read_legacy db.side.legacy ((db.legacy_slot + 1) % 2)
        (some (write_item empty_file 0 sidecar_size (sidecar_bytes db.header db.sidecar_seq) done))
        (mirror_slot db s ((db.legacy_slot + 1) % 2 % 2))
        (read_legacy-written db.header db.sidecar_seq s ((db.legacy_slot + 1) % 2 % 2)) lt)

  pub newest_legacy-torn :
      (k : ℕ) (e : Bool)
      → ((s : Slot) → newest_legacy db.side ≡ some s → s.slot ≡ db.legacy_slot)
      → env.mirror_write.item ≡ cut k e
      → k < sidecar_size
      → newest_legacy (write_mirror db env).0.side ≡ newest_legacy db.side
  unfolding newest_legacy write_mirror
  newest_legacy-torn k e cur item short =
      let σ = (db.legacy_slot + 1) % 2 in
      let bytes = sidecar_bytes db.header db.sidecar_seq in
      elim (write_torn env.mirror_write (db.side.legacy σ) sidecar_size bytes k e item) [
        | inl t ↦ rw t (
            newest_of-same read_legacy db.side.legacy σ (db.side.legacy σ)
              (ap db.side.legacy (mod_again db.legacy_slot)))
        | inr t ↦ rw t (
            newest_of-lost read_legacy db.side.legacy db.legacy_slot
              (some (write_item empty_file 0 sidecar_size bytes (cut k e))) read_legacy-slot cur
              (read_legacy-torn k σ bytes e short))
      ]

  mirror_compact : (write_mirror db env).0.side.compact ≡ db.side.compact
  unfolding write_mirror write_small_file
  mirror_compact = ground arith

  pub write_mirror-compact : newest_compact (write_mirror db env).0.side ≡ newest_compact db.side
  unfolding newest_compact
  write_mirror-compact =
      ap (λ (c : ℕ → Option File). newest (read_compact (c 0) 0) (read_compact (c 1) 1))
        mirror_compact
