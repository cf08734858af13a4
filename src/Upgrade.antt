-- ===== src/Upgrade.antt =====
-- The V2 to V3 block layout in tsdb_open of src/tsdb_core.c.
use esp_tsdb.Prelude.{
  ℕ, zero, suc, ◌+◌, ◌-◌, ◌*◌, ◌/◌, ◌%◌, Bool, ◌||◌, not, ltb, leb, ◌==◌, if◌then◌else◌, none, some,
}
use esp_tsdb.Bytes.{Mem, zeros, get16, get32}
use esp_tsdb.Format.{
  Header, u32, blkt, block_size, block_magic, block_count, set_block_magic, set_block_count,
  set_block_ts, calc_block_offset,
}
use esp_tsdb.Storage.{File, Outcome, read_item, write_item}
use esp_tsdb.Header.{write_header}
use esp_tsdb.Write.{put_params}

-- OLD_TS_OFFSET and OLD_PARAM_OFFSET
abbrev pub old_ts_offset : ℕ → ℕ
old_ts_offset r = 8 + r * 4

abbrev pub old_param_offset : (p r : ℕ) → ℕ
old_param_offset p r = 160 + p * 76 + r * 2

-- The value of a parameter in the old layout, 0 where it would lie outside the block.
unfoldable pub old_value : Mem → (r p : ℕ) → ℕ
old_value disk r p =
    if leb (old_param_offset p r + 2) block_size then get16 disk (old_param_offset p r) else 0

-- The records from `r` on, `n` of them, into the new block.
unfoldable pub move_records : (n r : ℕ) → Header → (disk new_block : Mem) → Mem
move_records zero r h disk new_block = new_block
move_records (suc n) r h disk new_block = move_records n (r + 1) h disk (
    put_params h.num_params 0 h.records_per_block r (old_value disk r)
      (set_block_ts new_block r (get32 disk (old_ts_offset r))))

-- A block in the new layout.
unfoldable pub upgrade_block : Header → Mem → Mem
upgrade_block h disk =
    let count = block_count disk in
    move_records (if ltb count h.records_per_block then count else h.records_per_block) 0 h disk
      (set_block_count (set_block_magic zeros blkt) count)

-- The blocks from `b` on, `n` of them, each rewritten in its place.
unfoldable pub upgrade_blocks : (n b : ℕ) → Header → (ℕ → Outcome) → File → File
upgrade_blocks zero b h env f = f
upgrade_blocks (suc n) b h env f =
    let off = calc_block_offset h b in
    upgrade_blocks n (b + 1) h env (elim (read_item f off block_size) [
      | none ↦ f
      | some disk ↦
          if not (block_magic disk == blkt) || block_count disk == 0
          then f
          else write_item f off block_size (upgrade_block h disk) (env b)
    ])

-- What the environment does during the upgrade.
pub record UpgradeEnv : Type 0 where
  pub malloc_ok : Bool
  pub sentinel : Outcome
  pub block : ℕ → Outcome
  pub version : Outcome

-- total_blocks
unfoldable pub blocks_to_upgrade : Header → ℕ
blocks_to_upgrade h =
    let max_recs = if ltb 0 h.max_records then h.max_records else h.total_records in
    (max_recs + h.records_per_block - 1) % u32 / h.records_per_block

-- The version of a file whose upgrade is under way.
abbrev pub torn_version : ℕ
torn_version = 99

-- The whole upgrade: the header in memory and the file.
unfoldable pub upgrade : Header → File → UpgradeEnv → Header × File
upgrade h f env =
    let marked = record h { version = torn_version } in
    let f1 = (write_header f marked env.sentinel).1 in
    let f2 = upgrade_blocks (blocks_to_upgrade h) 0 h env.block f1 in
    let h3 = record h { version = 3 } in
    if not (ltb h.version 3)
    then (h, f)
    else if not (ltb 38 h.records_per_block)
    then (h3, (write_header f h3 env.version).1)
    else if env.malloc_ok
    then (h3, (write_header f2 h3 env.version).1)
    else (h, f)
