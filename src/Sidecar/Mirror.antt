-- ===== src/Sidecar/Mirror.antt =====
-- A legacy sidecar slot that tsdb_sidecar_write wrote, and one whose write was cut, as
-- tsdb_sidecar_load reads them.
use esp_tsdb.Prelude.{ℕ, ◌+◌, ◌≤◌, ◌<◌, ◌≡◌, refl, arith, ◌∙◌, sym, ap, Bool, none, some}
use esp_tsdb.Bytes.{Mem, zeros, from_offset, get32, put32}
use esp_tsdb.Bytes.Laws.{blit_inside, get32-blit, get32-put32, get32-put32_ne}
use esp_tsdb.Format.{Header, u32}
use esp_tsdb.Format.Codec.{Fits, SameHeader, encode, decode, decode-encode}
use esp_tsdb.Storage.{File, empty_file, done, cut, read_item, write_item, store_bytes}
use esp_tsdb.Header.Stored.{decode-cong, SameHeader-trans, bytes-write_start, size-write_start}
use esp_tsdb.Ring.Cells.{get32-same}
use esp_tsdb.Crc.{crc32, crc32-cong, crc32-lt}
use esp_tsdb.Sidecar.{
  sidecar_magic, sidecar_size, sidecar2_size, sidecar_bytes, read_compact, read_legacy,
}
use esp_tsdb.Sidecar.Slots.{read_legacy-some, read_start}

module _ (h : Header) (seq : ℕ) (small : seq < u32) where
  abbrev mirror : Mem
  mirror = sidecar_bytes h seq

  mirror-words :
      (get32 mirror 0 ≡ sidecar_magic)
      × (get32 mirror 4 ≡ seq)
      × (get32 mirror 8 ≡ crc32 (encode h) 584)
  unfolding sidecar_bytes
  mirror-words =
      let c = crc32-lt (encode h) 584 in
      let s = put32 (put32 zeros 0 sidecar_magic) 4 seq in
      let w = put32 s 8 (crc32 (encode h) 584) in
      (
        get32-blit w (encode h) 12 584 0 (omega arith)
            ∙ get32-put32_ne s 8 0 (crc32 (encode h) 584) (omega arith)
            ∙ get32-put32_ne (put32 zeros 0 sidecar_magic) 4 0 seq (omega arith)
            ∙ get32-put32 zeros 0 sidecar_magic (omega arith),
        get32-blit w (encode h) 12 584 4 (omega arith)
            ∙ get32-put32_ne s 8 4 (crc32 (encode h) 584) (omega arith)
            ∙ get32-put32 (put32 zeros 0 sidecar_magic) 4 seq small,
        get32-blit w (encode h) 12 584 8 (omega arith) ∙ get32-put32 s 8 (crc32 (encode h) 584) c,
      )

  mirror-header : (q : ℕ) → q < 584 → mirror (12 + q) ≡ encode h q
  unfolding sidecar_bytes
  mirror-header q lt = blit_inside _ (encode h) 12 584 q (12 + q) refl lt

  -- The file of a mirror that was written in full.
  abbrev pub mirror_file : File
  mirror_file = write_item empty_file 0 sidecar_size mirror done

  abbrev pub mirror_content : Mem
  mirror_content = from_offset mirror_file.bytes 0

  content-bytes : (q : ℕ) → q < 596 → mirror_content q ≡ mirror q
  content-bytes q lt =
      let z : 0 + q ≡ q = omega arith in
      ap mirror_file.bytes z ∙ bytes-write_start empty_file 596 q mirror lt

  content-word : (q : ℕ) → q + 4 ≤ 596 → get32 mirror_content q ≡ get32 mirror q
  content-word q le =
      get32-same mirror_content mirror q (λ i k. content-bytes (q + i) (omega arith))

  content-header : (q : ℕ) → q < 584 → from_offset mirror_content 12 q ≡ encode h q
  content-header q lt = content-bytes (12 + q) (omega arith) ∙ mirror-header q lt

  -- tsdb_sidecar_load takes the mirror, with its number.
  pub read_legacy-written :
      (slot : ℕ)
      → read_legacy (some mirror_file) slot
        ≡ some (record {
          seq = seq;
          legacy_seq = 0;
          slot = slot;
          content = from_offset mirror_content 12;
        })
  read_legacy-written slot =
      let (m, s, c) = mirror-words in
      read_legacy-some mirror_file mirror_content slot seq
        (read_start mirror_file 596 (size-write_start empty_file 596 mirror))
        (content-word 0 (omega arith) ∙ m)
        (crc32-cong (from_offset mirror_content 12) (encode h) 584 content-header
          ∙ sym (content-word 8 (omega arith) ∙ c))
        (content-word 4 (omega arith) ∙ s)

  -- The header in it.
  pub decode-written : Fits h → SameHeader (decode (from_offset mirror_content 12)) h
  decode-written fits =
      SameHeader-trans (decode-cong (from_offset mirror_content 12) (encode h) content-header)
        (decode-encode h fits)

-- A slot whose write from an empty file was cut is too short to be read.
read_short : (f : File) (n : ℕ) → f.size < n → read_item f 0 n ≡ none
unfolding read_item
read_short f n lt = ground arith

cut_size :
    (len n : ℕ) (bytes : Mem) (e : Bool)
    → n < len
    → (write_item empty_file 0 len bytes (cut n e)).size < len
unfolding write_item store_bytes
cut_size len n bytes e lt = ground arith

pub read_compact-torn :
    (n slot : ℕ) (bytes : Mem) (e : Bool)
    → n < sidecar2_size
    → read_compact (some (write_item empty_file 0 sidecar2_size bytes (cut n e))) slot ≡ none
unfolding read_compact
read_compact-torn n slot bytes e lt =
    let f = write_item empty_file 0 sidecar2_size bytes (cut n e) in
    simp (read_short f sidecar2_size (cut_size sidecar2_size n bytes e lt), read_compact) refl

pub read_legacy-torn :
    (n slot : ℕ) (bytes : Mem) (e : Bool)
    → n < sidecar_size
    → read_legacy (some (write_item empty_file 0 sidecar_size bytes (cut n e))) slot ≡ none
unfolding read_legacy
read_legacy-torn n slot bytes e lt =
    let f = write_item empty_file 0 sidecar_size bytes (cut n e) in
    simp (read_short f sidecar_size (cut_size sidecar_size n bytes e lt), read_legacy) refl
