-- ===== src/Fold/Index.antt =====
-- The sparse index that tsdb_fold_header rebuilds.
use esp_tsdb.Prelude.{ℕ, ◌+◌, ◌*◌, ◌/◌, ◌%◌}
use esp_tsdb.Format.{Header, u32, add32, calc_block_offset}
use esp_tsdb.Handle.{Handle}

-- Where tsdb_rebuild_index_ reads the timestamp of entry `k`.
abbrev pub entry_source : Header → ℕ → ℕ
entry_source h k =
    let slot = k * h.index_stride % u32 in
    add32 (calc_block_offset h (slot / h.records_per_block)) (8 + slot % h.records_per_block * 4)
