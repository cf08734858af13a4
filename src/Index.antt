-- ===== src/Index.antt =====
-- src/tsdb_index.c: the binary search on the sparse time index.
pub mod Search
use esp_tsdb.Prelude.{
  ℕ, zero, suc, ◌+◌, ◌-◌, ◌*◌, ◌/◌, ◌≤◌, ◌<◌, ◌≡◌, ◌⊎◌, inl, inr, arith, refl, ◌∙◌, Bool, true,
  false, ltb, leb, ◌==◌, if◌then◌else◌, Bool-cases, Option, none, some, ltb→lt,
}
use esp_tsdb.Bytes.{Mem, get32}
use esp_tsdb.Format.{Header, EspErr, esp_ok, esp_fail, add32}
use esp_tsdb.Storage.{File, read_item}

-- An index entry: its timestamp and its block number.
abbrev pub Entry : Type 0
Entry = ℕ × ℕ

unfoldable pub read_entry : File → Header → (mid : ℕ) → Option Entry
read_entry f h mid = elim (read_item f (add32 h.index_offset (mid * 8)) 8) [
  | none ↦ none
  | some m ↦ some (get32 m 0, get32 m 4)
]

-- Where the search goes from an entry.
pub data Turn : Type 0 where
  go_left : Turn
  exact : Turn
  go_right : Turn

unfoldable pub turn : (entry_ts timestamp : ℕ) → Turn
turn entry_ts timestamp =
    if entry_ts == 0
    then go_left
    else if entry_ts == timestamp
    then exact
    else if ltb entry_ts timestamp
    then go_right
    else go_left

-- while (left <= right), on fuel: the block number. `right_next` is right + 1, for right is -1 when
-- nothing is left of entry 0. `none` is fuel that ran out.
unfoldable pub search_loop :
    (fuel : ℕ) → File → Header → (timestamp left right_next best_block : ℕ) → Option ℕ
search_loop zero f h timestamp left right_next best_block = none
search_loop (suc fuel) f h timestamp left right_next best_block =
    let mid = (left + (right_next - 1)) / 2 in
    elim (ltb left right_next) [
      | false ↦ some best_block
      | true ↦ elim (read_entry f h mid) [
        | none ↦ some best_block
        | some (entry_ts, block) ↦ elim (turn entry_ts timestamp) [
          | go_left ↦ search_loop fuel f h timestamp left mid best_block
          | exact ↦ some block
          | go_right ↦ search_loop fuel f h timestamp (mid + 1) right_next block
        ]
      ]
    ]

-- tsdb_find_block_for_timestamp, for pointers that are not NULL: the status and `*block_num`.
unfoldable pub find_block_for_timestamp : File → Header → (timestamp : ℕ) → EspErr × ℕ
find_block_for_timestamp f h timestamp =
    if h.index_entries == 0
    then (esp_ok, 0)
    else if h.records_per_block == 0
    then (esp_fail, 0)
    else if ltb timestamp h.oldest_timestamp
    then (esp_ok, h.oldest_record_idx / h.records_per_block)
    else if ltb h.newest_timestamp timestamp
    then (esp_ok, h.newest_record_idx / h.records_per_block)
    else elim (search_loop (h.index_entries + 1) f h timestamp 0 h.index_entries 0) [
      | none ↦ (esp_fail, 0)
      | some block_num ↦ (esp_ok, block_num)
    ]
