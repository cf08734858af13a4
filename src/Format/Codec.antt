-- ===== src/Format/Codec.antt =====
-- The packed layout of `tsdb_header_t`: what fread and fwrite of the struct move to and from the
-- file, field by field at its offset.
use esp_tsdb.Prelude.{ℕ, ◌+◌, ◌^◌, ◌≤◌, ◌<◌, ◌≡◌, ◌∙◌, arith}
use esp_tsdb.Bytes.{Mem, zeros, blit, from_offset, get16, get32, put8, put16, put32, le16, le32}
use esp_tsdb.Bytes.Laws.{blit_inside}
use esp_tsdb.Format.{Header}

-- The header up to the names: TSDB_HDR_PRE_LEN bytes.
unfoldable pub encode_pre : Header → Mem
unfolding put8 put16 put32
encode_pre h =
    let a = put32 (put32 zeros 0 h.magic_word) 4 h.version in
    let b = put16 (put8 (put8 a 8 h.num_params) 9 h.param_size) 10 h.record_size in
    let c = put32 (put16 b 12 h.records_per_block) 14 h.max_records in
    let d = put32 (put32 c 18 h.total_records) 22 h.oldest_record_idx in
    let e = put32 (put32 d 26 h.newest_record_idx) 30 h.oldest_timestamp in
    let f = put32 (put32 e 34 h.newest_timestamp) 38 h.index_offset in
    let g = put32 (put32 f 42 h.index_entries) 46 h.index_stride in
    put32 (put32 g 50 h.total_writes) 54 h.total_evictions

-- The fields after the names, stored over `m`.
unfoldable pub put_post : Header → Mem → Mem
unfolding put8 put16 put32
put_post h m =
    let a =
      put16 (put8 (put8 m 570 h.base_params) 571 h.extra_param_count) 572 h.overflow_record_size in
    put16 (put32 (put32 a 574 h.overflow_offset) 578 h.first_overflow_record_idx) 582 h.reserved2

unfoldable pub encode : Header → Mem
unfolding encode_pre put_post
encode h = put_post h (blit (encode_pre h) 58 512 h.param_names)

unfoldable pub decode : Mem → Header
unfolding get16 get32
decode m = record {
  magic_word = get32 m 0;
  version = get32 m 4;
  num_params = m 8;
  param_size = m 9;
  record_size = get16 m 10;
  records_per_block = get16 m 12;
  max_records = get32 m 14;
  total_records = get32 m 18;
  oldest_record_idx = get32 m 22;
  newest_record_idx = get32 m 26;
  oldest_timestamp = get32 m 30;
  newest_timestamp = get32 m 34;
  index_offset = get32 m 38;
  index_entries = get32 m 42;
  index_stride = get32 m 46;
  total_writes = get32 m 50;
  total_evictions = get32 m 54;
  param_names = from_offset m 58;
  base_params = m 570;
  extra_param_count = m 571;
  overflow_record_size = get16 m 572;
  overflow_offset = get32 m 574;
  first_overflow_record_idx = get32 m 578;
  reserved2 = get16 m 582;
}

-- Every field is a value of its C type.
pub record Fits (h : Header) : Type 0 where
  pub magic_word : h.magic_word < 2 ^ 32
  pub version : h.version < 2 ^ 32
  pub num_params : h.num_params < 256
  pub param_size : h.param_size < 256
  pub record_size : h.record_size < 2 ^ 16
  pub records_per_block : h.records_per_block < 2 ^ 16
  pub max_records : h.max_records < 2 ^ 32
  pub total_records : h.total_records < 2 ^ 32
  pub oldest_record_idx : h.oldest_record_idx < 2 ^ 32
  pub newest_record_idx : h.newest_record_idx < 2 ^ 32
  pub oldest_timestamp : h.oldest_timestamp < 2 ^ 32
  pub newest_timestamp : h.newest_timestamp < 2 ^ 32
  pub index_offset : h.index_offset < 2 ^ 32
  pub index_entries : h.index_entries < 2 ^ 32
  pub index_stride : h.index_stride < 2 ^ 32
  pub total_writes : h.total_writes < 2 ^ 32
  pub total_evictions : h.total_evictions < 2 ^ 32
  pub base_params : h.base_params < 256
  pub extra_param_count : h.extra_param_count < 256
  pub overflow_record_size : h.overflow_record_size < 2 ^ 16
  pub overflow_offset : h.overflow_offset < 2 ^ 32
  pub first_overflow_record_idx : h.first_overflow_record_idx < 2 ^ 32
  pub reserved2 : h.reserved2 < 2 ^ 16

-- Two headers with the same fields, the names compared over their 512 bytes.
pub record SameHeader (g h : Header) : Type 0 where
  pub magic_word : g.magic_word ≡ h.magic_word
  pub version : g.version ≡ h.version
  pub num_params : g.num_params ≡ h.num_params
  pub param_size : g.param_size ≡ h.param_size
  pub record_size : g.record_size ≡ h.record_size
  pub records_per_block : g.records_per_block ≡ h.records_per_block
  pub max_records : g.max_records ≡ h.max_records
  pub total_records : g.total_records ≡ h.total_records
  pub oldest_record_idx : g.oldest_record_idx ≡ h.oldest_record_idx
  pub newest_record_idx : g.newest_record_idx ≡ h.newest_record_idx
  pub oldest_timestamp : g.oldest_timestamp ≡ h.oldest_timestamp
  pub newest_timestamp : g.newest_timestamp ≡ h.newest_timestamp
  pub index_offset : g.index_offset ≡ h.index_offset
  pub index_entries : g.index_entries ≡ h.index_entries
  pub index_stride : g.index_stride ≡ h.index_stride
  pub total_writes : g.total_writes ≡ h.total_writes
  pub total_evictions : g.total_evictions ≡ h.total_evictions
  pub base_params : g.base_params ≡ h.base_params
  pub extra_param_count : g.extra_param_count ≡ h.extra_param_count
  pub overflow_record_size : g.overflow_record_size ≡ h.overflow_record_size
  pub overflow_offset : g.overflow_offset ≡ h.overflow_offset
  pub first_overflow_record_idx : g.first_overflow_record_idx ≡ h.first_overflow_record_idx
  pub reserved2 : g.reserved2 ≡ h.reserved2
  pub names : (i : ℕ) → i < 512 → g.param_names i ≡ h.param_names i

opened : Unit {0}
unfolding encode decode blit le16 le32
opened = tt

pub put_post-below : (h : Header) (m : Mem) (q : ℕ) → q < 570 → put_post h m q ≡ m q
unfolding put_post blit
put_post-below h m q lt = ground arith

pub put_post-above :
    (h : Header) (m m' : Mem) (q : ℕ) → 570 ≤ q → q < 584 → put_post h m q ≡ put_post h m' q
unfolding put_post blit
put_post-above h m m' q lo hi = ground arith

names-encode : (h : Header) (i : ℕ) → i < 512 → (decode (encode h)).param_names i ≡ h.param_names i
names-encode h i lt =
    unfold encode decode in
    put_post-below h (blit (encode_pre h) 58 512 h.param_names) (58 + i) (omega arith)
    ∙ blit_inside (encode_pre h) h.param_names 58 512 i (58 + i) (omega arith) lt

module _ (h : Header) (f : Fits h) where
  -- A header whose fields are values of their C types, written to its 584 bytes, is read back with
  -- every field as it was and all 512 bytes of the names.
  pub decode-encode : SameHeader (decode (encode h)) h
  unfolding opened
  decode-encode = record {
    magic_word = omega arith;
    version = omega arith;
    num_params = omega arith;
    param_size = omega arith;
    record_size = omega arith;
    records_per_block = omega arith;
    max_records = omega arith;
    total_records = omega arith;
    oldest_record_idx = omega arith;
    newest_record_idx = omega arith;
    oldest_timestamp = omega arith;
    newest_timestamp = omega arith;
    index_offset = omega arith;
    index_entries = omega arith;
    index_stride = omega arith;
    total_writes = omega arith;
    total_evictions = omega arith;
    base_params = omega arith;
    extra_param_count = omega arith;
    overflow_record_size = omega arith;
    overflow_offset = omega arith;
    first_overflow_record_idx = omega arith;
    reserved2 = omega arith;
    names = names-encode h;
  }
