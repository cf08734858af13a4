-- ===== src/Sidecar/Slots.antt =====
-- A sidecar slot that tsdb_sidecar_write wrote, as tsdb_sidecar_load reads it.
use native.Mathlib.Decide.{dec_lt}
use esp_tsdb.Prelude.{ℕ, ◌+◌, ◌-◌, ◌^◌, ◌≤◌, ◌<◌, ◌≡◌, refl, arith, ◌∙◌, sym, ap, true, ◌==◌, some}
use esp_tsdb.Bytes.{Mem, zeros, blit, from_offset, get32, put32, le32}
use esp_tsdb.Bytes.Laws.{blit_inside, blit_outside, get32-blit, get32-put32, get32-put32_ne}
use esp_tsdb.Format.{Header, u32}
use esp_tsdb.Format.Codec.{
  Fits, SameHeader, encode, decode-encode, encode_pre, put_post-below, put_post-above,
}
use esp_tsdb.Storage.{File, empty_file, done, read_item, write_item}
use esp_tsdb.Header.Stored.{decode-cong, SameHeader-trans, bytes-write_start, size-write_start}
use esp_tsdb.Ring.Cells.{get32-same}
use esp_tsdb.Crc.{crc32, crc32-cong, crc32-lt}
use esp_tsdb.Sidecar.{
  sidecar2_magic, sidecar2_size, sidecar_magic, sidecar_size, sidecar2_body, sidecar2_crc,
  sidecar2_bytes, read_compact, read_legacy, apply_compact,
}

-- A header up to its names.
abbrev pub renamed : Header → Mem → Header
renamed h names = record h { param_names = names }

pub Fits-renamed : (h : Header) (names : Mem) → Fits h → Fits (renamed h names)
Fits-renamed h names f = record {
  magic_word = f.magic_word;
  version = f.version;
  num_params = f.num_params;
  param_size = f.param_size;
  record_size = f.record_size;
  records_per_block = f.records_per_block;
  max_records = f.max_records;
  total_records = f.total_records;
  oldest_record_idx = f.oldest_record_idx;
  newest_record_idx = f.newest_record_idx;
  oldest_timestamp = f.oldest_timestamp;
  newest_timestamp = f.newest_timestamp;
  index_offset = f.index_offset;
  index_entries = f.index_entries;
  index_stride = f.index_stride;
  total_writes = f.total_writes;
  total_evictions = f.total_evictions;
  base_params = f.base_params;
  extra_param_count = f.extra_param_count;
  overflow_record_size = f.overflow_record_size;
  overflow_offset = f.overflow_offset;
  first_overflow_record_idx = f.first_overflow_record_idx;
  reserved2 = f.reserved2;
}

pub read_start : (f : File) (n : ℕ) → n ≤ f.size → read_item f 0 n ≡ some (from_offset f.bytes 0)
unfolding read_item
read_start f n le = ground arith

read_compact-some :
    (f : File) (m : Mem) (slot seq legacy_seq : ℕ)
    → read_item f 0 sidecar2_size ≡ some m
    → get32 m 0 ≡ sidecar2_magic
    → sidecar2_crc m ≡ get32 m 8
    → get32 m 4 ≡ seq
    → get32 m 12 ≡ legacy_seq
    → read_compact (some f) slot
      ≡ some (record { seq = seq; legacy_seq = legacy_seq; slot = slot; content = m })
unfolding read_compact
read_compact-some f m slot seq legacy_seq r mg c s l =
    let a : (get32 m 0 == sidecar2_magic) ≡ true = ground arith in
    let b : (sidecar2_crc m == get32 m 8) ≡ true = ground arith in
    simp (r, a, b, s, l, read_compact) refl

pub read_legacy-some :
    (f : File) (m : Mem) (slot seq : ℕ)
    → read_item f 0 sidecar_size ≡ some m
    → get32 m 0 ≡ sidecar_magic
    → crc32 (from_offset m 12) 584 ≡ get32 m 8
    → get32 m 4 ≡ seq
    → read_legacy (some f) slot
      ≡ some (record { seq = seq; legacy_seq = 0; slot = slot; content = from_offset m 12 })
unfolding read_legacy
read_legacy-some f m slot seq r mg c s =
    let a : (get32 m 0 == sidecar_magic) ≡ true = ground arith in
    let b : (crc32 (from_offset m 12) 584 == get32 m 8) ≡ true = ground arith in
    simp (r, a, b, s, read_legacy) refl

-- The three parts of a header's bytes: only the middle one has the names.
encode-pre : (h : Header) (names : Mem) (q : ℕ) → q < 58 → encode h q ≡ encode (renamed h names) q
unfolding encode
encode-pre h names q lt =
    put_post-below h (blit (encode_pre h) 58 512 h.param_names) q (omega arith)
    ∙ blit_outside (encode_pre h) h.param_names 58 512 q (omega arith)
    ∙ sym (
        put_post-below (renamed h names) (blit (encode_pre (renamed h names)) 58 512 names) q
          (omega arith)
        ∙ blit_outside (encode_pre (renamed h names)) names 58 512 q (omega arith))

encode-names : (h : Header) (q : ℕ) → 58 ≤ q → q < 570 → encode h q ≡ h.param_names (q - 58)
unfolding encode
encode-names h q lo hi =
    put_post-below h (blit (encode_pre h) 58 512 h.param_names) q hi
    ∙ blit_inside (encode_pre h) h.param_names 58 512 (q - 58) q (omega arith) (omega arith)

encode-post :
    (h : Header) (names : Mem) (q : ℕ) → 570 ≤ q → q < 584 → encode h q ≡ encode (renamed h names) q
unfolding encode
encode-post h names q lo hi =
    put_post-above h (blit (encode_pre h) 58 512 h.param_names)
      (blit (encode_pre (renamed h names)) 58 512 names) q lo hi

module _ (h : Header) (seq legacy_seq : ℕ) (small : seq < u32)
    (legacy_small : legacy_seq < u32) where
  abbrev body : Mem
  body = sidecar2_body h seq legacy_seq

  abbrev bytes : Mem
  bytes = sidecar2_bytes h seq legacy_seq

  body-words : (get32 body 0 ≡ sidecar2_magic) × (get32 body 4 ≡ seq) × (get32 body 12 ≡ legacy_seq)
  unfolding sidecar2_body
  body-words = (
    over 0 (omega arith) (omega arith)
        ∙ get32-put32_ne _ 12 0 legacy_seq (omega arith)
        ∙ get32-put32_ne _ 4 0 seq (omega arith)
        ∙ get32-put32 zeros 0 sidecar2_magic (omega arith),
    over 4 (omega arith) (omega arith)
        ∙ get32-put32_ne _ 12 4 legacy_seq (omega arith)
        ∙ get32-put32 _ 4 seq small,
    over 12 (omega arith) (omega arith) ∙ get32-put32 _ 12 legacy_seq legacy_small,
  )
    where
      words : Mem
      words = put32 (put32 (put32 zeros 0 sidecar2_magic) 4 seq) 12 legacy_seq

      over : (q : ℕ) → q + 4 ≤ 16 → q + 4 ≤ 74 → get32 body q ≡ get32 words q
      over q a b = get32-blit _ _ 74 14 q (omega arith) ∙ get32-blit _ _ 16 58 q (omega arith)

  body-pre : (q : ℕ) → q < 58 → body (16 + q) ≡ encode h q
  unfolding sidecar2_body
  body-pre q lt =
      blit_outside _ _ 74 14 (16 + q) (omega arith)
      ∙ blit_inside _ (encode h) 16 58 q (16 + q) refl lt

  body-post : (q : ℕ) → q < 14 → body (74 + q) ≡ encode h (570 + q)
  unfolding sidecar2_body
  body-post q lt = blit_inside _ (from_offset (encode h) 570) 74 14 q (74 + q) refl lt

  -- The checksum is over the bytes from 12 on, which storing it at 8 does not change.
  bytes-above : (q : ℕ) → 12 ≤ q → bytes q ≡ body q
  unfolding sidecar2_bytes put32
  bytes-above q le = blit_outside body (le32 (sidecar2_crc body)) 8 4 q (omega arith)

  bytes-words :
      (get32 bytes 0 ≡ sidecar2_magic)
      × (get32 bytes 4 ≡ seq)
      × (get32 bytes 8 ≡ sidecar2_crc body)
      × (get32 bytes 12 ≡ legacy_seq)
  unfolding sidecar2_bytes
  bytes-words =
      let (m, s, l) = body-words in
      (
        get32-put32_ne body 8 0 (sidecar2_crc body) (omega arith) ∙ m,
        get32-put32_ne body 8 4 (sidecar2_crc body) (omega arith) ∙ s,
        get32-put32 body 8 (sidecar2_crc body) crc_small,
        get32-put32_ne body 8 12 (sidecar2_crc body) (omega arith) ∙ l,
      )
    where
      crc_small : sidecar2_crc body < 2 ^ 32
      crc_small = unfold sidecar2_crc in crc32-lt (from_offset body 12) 76

  -- The file of a slot that was written in full.
  abbrev pub compact_file : File
  compact_file = write_item empty_file 0 sidecar2_size bytes done

  abbrev pub compact_content : Mem
  compact_content = from_offset compact_file.bytes 0

  content-bytes : (q : ℕ) → q < 88 → compact_content q ≡ bytes q
  content-bytes q lt =
      let z : 0 + q ≡ q = omega arith in
      ap compact_file.bytes z ∙ bytes-write_start empty_file 88 q bytes lt

  content-word : (q : ℕ) → q + 4 ≤ 88 → get32 compact_content q ≡ get32 bytes q
  content-word q le =
      get32-same compact_content bytes q (λ i k. content-bytes (q + i) (omega arith))

  content-crc : sidecar2_crc compact_content ≡ sidecar2_crc body
  unfolding sidecar2_crc
  content-crc =
      crc32-cong (from_offset compact_content 12) (from_offset body 12) 76
        (λ k lt. content-bytes (12 + k) (omega arith) ∙ bytes-above (12 + k) (omega arith))

  -- tsdb_sidecar_load takes the slot, with its numbers.
  pub read_compact-written :
      (slot : ℕ)
      → read_compact (some compact_file) slot
        ≡ some
            (record { seq = seq; legacy_seq = legacy_seq; slot = slot; content = compact_content })
  read_compact-written slot =
      let (m, s, c, l) = bytes-words in
      read_compact-some compact_file compact_content slot seq legacy_seq
        (read_start compact_file 88 (size-write_start empty_file 88 bytes))
        (content-word 0 (omega arith) ∙ m) (content-crc ∙ sym (content-word 8 (omega arith) ∙ c))
        (content-word 4 (omega arith) ∙ s) (content-word 12 (omega arith) ∙ l)

  -- Its state over the names of another header.
  pub apply_compact-written :
      (base : Header)
      → Fits h
      → SameHeader (apply_compact base compact_content) (renamed h base.param_names)
  unfolding apply_compact
  apply_compact-written base fits =
      SameHeader-trans (decode-cong _ (encode (renamed h base.param_names)) same)
        (decode-encode (renamed h base.param_names) (Fits-renamed h base.param_names fits))
    where
      head : Mem
      head = blit (encode base) 0 58 (from_offset compact_content 16)

      tail : Mem
      tail = from_offset compact_content 74

      same : (q : ℕ) → q < 584 → blit head 570 14 tail q ≡ encode (renamed h base.param_names) q
      same q lt = elim (dec_lt q 58) [
        | yes a ↦
            blit_outside head tail 570 14 q (omega arith)
            ∙ blit_inside (encode base) (from_offset compact_content 16) 0 58 q q refl' a
            ∙ content-bytes (16 + q) (omega arith)
            ∙ bytes-above (16 + q) (omega arith)
            ∙ body-pre q a
            ∙ encode-pre h base.param_names q a
        | no a ↦ elim (dec_lt q 570) [
          | yes b ↦
              blit_outside head tail 570 14 q (omega arith)
              ∙ blit_outside (encode base) (from_offset compact_content 16) 0 58 q (omega arith)
              ∙ encode-names base q (omega arith) b
              ∙ sym (encode-names (renamed h base.param_names) q (omega arith) b)
          | no b ↦
              let i : ℕ = q - 570 in
              let e : 570 + i ≡ q = omega arith in
              blit_inside head tail 570 14 i q (sym e) (omega arith)
              ∙ content-bytes (74 + i) (omega arith)
              ∙ bytes-above (74 + i) (omega arith)
              ∙ body-post i (omega arith)
              ∙ ap (encode h) e
              ∙ encode-post h base.param_names q (omega arith) lt
        ]
      ]
        where
          refl' : q ≡ 0 + q
          refl' = omega arith
