-- ===== src/Header/Stored.antt =====
-- tsdb_read_header after a header was stored at the start of the file.
use esp_tsdb.Prelude.{ℕ, ◌+◌, ◌≤◌, ◌<◌, ◌≡◌, arith, ◌∙◌, ap, some}
use esp_tsdb.Bytes.{Mem, from_offset, get16, get32}
use esp_tsdb.Format.{Header}
use esp_tsdb.Format.Codec.{encode, decode, Fits, SameHeader, decode-encode}
use esp_tsdb.Storage.{File, done, read_item, write_item}
use esp_tsdb.Storage.Laws.{bytes-store_inside, size-store_bytes}
use esp_tsdb.Ring.Cells.{get32-same, get16-same}
use esp_tsdb.Header.{read_header}

-- Only the first 584 bytes of a buffer decide the header in it.
pub decode-cong :
    (m m' : Mem) → ((q : ℕ) → q < 584 → m q ≡ m' q) → SameHeader (decode m) (decode m')
unfolding decode
decode-cong m m' e = record {
  magic_word = word 0 (omega arith);
  version = word 4 (omega arith);
  num_params = e 8 (omega arith);
  param_size = e 9 (omega arith);
  record_size = half 10 (omega arith);
  records_per_block = half 12 (omega arith);
  max_records = word 14 (omega arith);
  total_records = word 18 (omega arith);
  oldest_record_idx = word 22 (omega arith);
  newest_record_idx = word 26 (omega arith);
  oldest_timestamp = word 30 (omega arith);
  newest_timestamp = word 34 (omega arith);
  index_offset = word 38 (omega arith);
  index_entries = word 42 (omega arith);
  index_stride = word 46 (omega arith);
  total_writes = word 50 (omega arith);
  total_evictions = word 54 (omega arith);
  base_params = e 570 (omega arith);
  extra_param_count = e 571 (omega arith);
  overflow_record_size = half 572 (omega arith);
  overflow_offset = word 574 (omega arith);
  first_overflow_record_idx = word 578 (omega arith);
  reserved2 = half 582 (omega arith);
  names = λ i lt. e (58 + i) (omega arith);
}
  where
    word : (o : ℕ) → o + 4 ≤ 584 → get32 m o ≡ get32 m' o
    word o le = get32-same m m' o (λ i k. e (o + i) (omega arith))

    half : (o : ℕ) → o + 2 ≤ 584 → get16 m o ≡ get16 m' o
    half o le = get16-same m m' o (e o (omega arith)) (e (o + 1) (omega arith))

pub SameHeader-trans : {g h k : Header} → SameHeader g h → SameHeader h k → SameHeader g k
SameHeader-trans a b = record {
  magic_word = a.magic_word ∙ b.magic_word;
  version = a.version ∙ b.version;
  num_params = a.num_params ∙ b.num_params;
  param_size = a.param_size ∙ b.param_size;
  record_size = a.record_size ∙ b.record_size;
  records_per_block = a.records_per_block ∙ b.records_per_block;
  max_records = a.max_records ∙ b.max_records;
  total_records = a.total_records ∙ b.total_records;
  oldest_record_idx = a.oldest_record_idx ∙ b.oldest_record_idx;
  newest_record_idx = a.newest_record_idx ∙ b.newest_record_idx;
  oldest_timestamp = a.oldest_timestamp ∙ b.oldest_timestamp;
  newest_timestamp = a.newest_timestamp ∙ b.newest_timestamp;
  index_offset = a.index_offset ∙ b.index_offset;
  index_entries = a.index_entries ∙ b.index_entries;
  index_stride = a.index_stride ∙ b.index_stride;
  total_writes = a.total_writes ∙ b.total_writes;
  total_evictions = a.total_evictions ∙ b.total_evictions;
  base_params = a.base_params ∙ b.base_params;
  extra_param_count = a.extra_param_count ∙ b.extra_param_count;
  overflow_record_size = a.overflow_record_size ∙ b.overflow_record_size;
  overflow_offset = a.overflow_offset ∙ b.overflow_offset;
  first_overflow_record_idx = a.first_overflow_record_idx ∙ b.first_overflow_record_idx;
  reserved2 = a.reserved2 ∙ b.reserved2;
  names = λ i lt. a.names i lt ∙ b.names i lt;
}

-- A file whose first 584 bytes are those of a header has that header.
pub read_header-encode :
    (f : File) (h : Header)
    → Fits h
    → 584 ≤ f.size
    → ((q : ℕ) → q < 584 → f.bytes q ≡ encode h q)
    → (g : Header) × (read_header f ≡ some g) × SameHeader g h
unfolding read_header read_item
read_header-encode f h fits long same = (
  decode (from_offset f.bytes 0),
  ground arith,
  SameHeader-trans
      (decode-cong (from_offset f.bytes 0) (encode h)
        (λ q lt. let z : 0 + q ≡ q = omega arith in ap f.bytes z ∙ same q lt))
      (decode-encode h fits),
)

-- A write from the file's start that is done shows its bytes.
pub bytes-write_start :
    (f : File) (n q : ℕ) (src : Mem) → q < n → (write_item f 0 n src done).bytes q ≡ src q
unfolding write_item
bytes-write_start f n q src lt = bytes-store_inside f 0 n q q src (omega arith) lt

pub size-write_start : (f : File) (n : ℕ) (src : Mem) → n ≤ (write_item f 0 n src done).size
unfolding write_item
size-write_start f n src = let s = size-store_bytes f 0 n src in omega (arith, s)
