-- ===== src/Sidecar.antt =====
-- The sidecar header of src/tsdb_core.c: two compact slots (TSH2) that alternate on every record,
-- and two legacy slots (TSH1) as a periodic mirror.
pub mod Keeps
pub mod Slots
pub mod Mirror
pub mod Newest
pub mod InStep
pub mod Halves
pub mod Recovered
pub mod Crash
use esp_tsdb.Prelude.{
  ℕ, ◌+◌, ◌-◌, ◌*◌, ◌%◌, Bool, true, false, not, ◌&&◌, ◌||◌, ltb, leb, ◌==◌, if◌then◌else◌, Option,
  none, some,
}
use esp_tsdb.Bytes.{Mem, zeros, blit, from_offset, get32, put32}
use esp_tsdb.Format.{Header, EspErr, esp_ok, esp_fail, err_not_found, u32, add32}
use esp_tsdb.Format.Codec.{encode, decode}
use esp_tsdb.Storage.{File, empty_file, Outcome, is_done, read_item, write_item}
use esp_tsdb.Handle.{Handle, SideFiles}
use esp_tsdb.Crc.{crc32}

abbrev pub sidecar_magic : ℕ
sidecar_magic = 0x54534831

abbrev pub sidecar2_magic : ℕ
sidecar2_magic = 0x54534832

abbrev pub sidecar_legacy_every : ℕ
sidecar_legacy_every = 32

abbrev pub hdr_pre_len : ℕ
hdr_pre_len = 58

abbrev pub hdr_post_off : ℕ
hdr_post_off = 570

abbrev pub hdr_post_len : ℕ
hdr_post_len = 14

-- sizeof(tsdb_sidecar_t), sizeof(tsdb_sidecar2_t)
abbrev pub sidecar_size : ℕ
sidecar_size = 596

abbrev pub sidecar2_size : ℕ
sidecar2_size = 88

-- How tsdb_write_small_file_ goes: does fopen succeed, how does the fwrite end, does fclose succeed.
pub record SmallWrite : Type 0 where
  pub opens : Bool
  pub item : Outcome
  pub closes : Bool

-- What the filesystem does during one tsdb_sidecar_write.
pub record SideEnv : Type 0 where
  pub makes_dir : Bool
  pub slot_write : SmallWrite
  pub mirror_write : SmallWrite

-- tsdb_write_small_file_: fopen "wb" truncates, so the old content is gone once it succeeds.
unfoldable pub write_small_file : SmallWrite → Option File → ℕ → Mem → Option File × Bool
write_small_file w old len bytes =
    if w.opens
    then (some (write_item empty_file 0 len bytes w.item), is_done w.item && w.closes)
    else (old, false)

unfoldable pub set_slot : (ℕ → Option File) → ℕ → Option File → ℕ → Option File
set_slot slots i f j = if j == i % 2 then f else slots j

-- The bytes of a `tsdb_sidecar2_t` before its checksum is filled in.
unfoldable pub sidecar2_body : Header → (seq legacy_seq : ℕ) → Mem
sidecar2_body h seq legacy_seq =
    let m = put32 (put32 (put32 zeros 0 sidecar2_magic) 4 seq) 12 legacy_seq in
    blit (blit m 16 hdr_pre_len (encode h)) 74 hdr_post_len (from_offset (encode h) hdr_post_off)

unfoldable pub sidecar2_crc : Mem → ℕ
sidecar2_crc m = crc32 (from_offset m 12) 76

unfoldable pub sidecar2_bytes : Header → (seq legacy_seq : ℕ) → Mem
unfolding sidecar2_body sidecar2_crc
sidecar2_bytes h seq legacy_seq =
    let m = sidecar2_body h seq legacy_seq in put32 m 8 (sidecar2_crc m)

-- The bytes of a `tsdb_sidecar_t`.
unfoldable pub sidecar_bytes : Header → (seq : ℕ) → Mem
sidecar_bytes h seq =
    let m = put32 (put32 (put32 zeros 0 sidecar_magic) 4 seq) 8 (crc32 (encode h) 584) in
    blit m 12 584 (encode h)

-- 1. the compact slot.
unfoldable pub write_compact : Handle → SideEnv → Handle × Bool
unfolding write_small_file set_slot sidecar2_bytes
write_compact db env =
    let dir = if db.side_dir_ready then db.side.dir else db.side.dir || env.makes_dir in
    let slot = (db.sidecar_slot + 1) % 2 in
    let w = record (env.slot_write) { opens = env.slot_write.opens && dir } in
    let (f, ok) =
      write_small_file w (db.side.compact slot) sidecar2_size
        (sidecar2_bytes db.header db.sidecar_seq db.legacy_seq) in
    (
      record db {
        side = record (db.side) { dir = dir; compact = set_slot db.side.compact slot f };
        side_dir_ready = true;
        sidecar_slot = slot;
      },
      ok,
    )

-- 2. the legacy mirror.
unfoldable pub write_mirror : Handle → SideEnv → Handle × Bool
unfolding write_small_file set_slot sidecar_bytes
write_mirror db env =
    let slot = (db.legacy_slot + 1) % 2 in
    let (f, ok) =
      write_small_file env.mirror_write (db.side.legacy slot) sidecar_size
        (sidecar_bytes db.header db.sidecar_seq) in
    let db' = record db {
      side = record (db.side) { legacy = set_slot db.side.legacy slot f };
      legacy_slot = slot;
    } in
    if ok
    then (record db' { legacy_seq = db.sidecar_seq; legacy_mirrored = true }, true)
    else (db', false)

-- Whether the mirror is due; `ok` says that the compact slot was written.
unfoldable pub mirror_due : Handle → Bool → Bool
mirror_due db ok =
    not ok
    || not db.legacy_mirrored
    || leb sidecar_legacy_every ((db.sidecar_seq + u32 - db.legacy_seq) % u32)

-- tsdb_sidecar_write
unfoldable pub sidecar_write : Handle → SideEnv → EspErr × Handle
sidecar_write db env =
    let (db1, ok) = write_compact (record db { sidecar_seq = add32 db.sidecar_seq 1 }) env in
    let (db2, mirror_ok) = write_mirror db1 env in
    if mirror_due db1 ok
    then (if ok || mirror_ok then esp_ok else esp_fail, db2)
    else (if ok then esp_ok else esp_fail, db1)

-- A slot that passed the checks of tsdb_sidecar_load.
pub record Slot : Type 0 where
  pub seq : ℕ
  pub legacy_seq : ℕ
  pub slot : ℕ
  pub content : Mem

-- A compact slot, if it can be read and its magic and checksum are right.
unfoldable pub read_compact : Option File → ℕ → Option Slot
unfolding sidecar2_crc
read_compact none slot = none
read_compact (some f) slot = elim (read_item f 0 sidecar2_size) [
  | none ↦ none
  | some m ↦
      if get32 m 0 == sidecar2_magic && sidecar2_crc m == get32 m 8
      then some (record { seq = get32 m 4; legacy_seq = get32 m 12; slot = slot; content = m })
      else none
]

unfoldable pub read_legacy : Option File → ℕ → Option Slot
read_legacy none slot = none
read_legacy (some f) slot = elim (read_item f 0 sidecar_size) [
  | none ↦ none
  | some m ↦
      if get32 m 0 == sidecar_magic && crc32 (from_offset m 12) 584 == get32 m 8
      then some
          (record { seq = get32 m 4; legacy_seq = 0; slot = slot; content = from_offset m 12 })
      else none
]

-- The loop over slots 0 and 1: the later one replaces the earlier only with a larger `seq`.
unfoldable pub newest : Option Slot → Option Slot → Option Slot
newest none b = b
newest (some a) none = some a
newest (some a) (some b) = if ltb a.seq b.seq then some b else some a

unfoldable pub newest_compact : SideFiles → Option Slot
unfolding read_compact newest
newest_compact s = newest (read_compact (s.compact 0) 0) (read_compact (s.compact 1) 1)

unfoldable pub newest_legacy : SideFiles → Option Slot
unfolding read_legacy newest
newest_legacy s = newest (read_legacy (s.legacy 0) 0) (read_legacy (s.legacy 1) 1)

-- *out = *base, then the bytes before and after the names from the slot.
unfoldable pub apply_compact : Header → Mem → Header
unfolding decode
apply_compact base m = decode (
    blit (blit (encode base) 0 hdr_pre_len (from_offset m 16)) hdr_post_off hdr_post_len
      (from_offset m 74))

-- Which state is authoritative.
unfoldable pub choose : Header → (r d : Option Slot) → Option Header
unfolding apply_compact
choose base none none = none
choose base (some r) none = some (decode r.content)
choose base none (some d) = if d.legacy_seq == 0 then some (apply_compact base d.content) else none
choose base (some r) (some d) =
    if leb r.seq d.legacy_seq then some (apply_compact base d.content) else some (decode r.content)

abbrev pub slot_seq : Option Slot → ℕ
slot_seq none = 0
slot_seq (some s) = s.seq

abbrev pub slot_index : Option Slot → ℕ
slot_index none = 0
slot_index (some s) = s.slot

-- tsdb_sidecar_load: `none` is ESP_ERR_NOT_FOUND.
unfoldable pub sidecar_load : Handle → Header → Handle × Option Header
unfolding newest_compact newest_legacy choose
sidecar_load db base =
    let r = newest_legacy db.side in
    let d = newest_compact db.side in
    let max_seq = if ltb (slot_seq r) (slot_seq d) then slot_seq d else slot_seq r in
    (
      record db {
        sidecar_seq = max_seq;
        legacy_seq = slot_seq r;
        legacy_slot = slot_index r;
        sidecar_slot = slot_index d;
        legacy_mirrored = false;
      },
      choose base r d,
    )

-- tsdb_sidecar_remove; `rmdir` fails on a directory that is not empty, and here both slots are gone.
unfoldable pub sidecar_remove : SideFiles → SideFiles
sidecar_remove s = record { dir = false; compact = λ i. none; legacy = λ i. none }
