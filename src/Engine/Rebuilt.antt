-- ===== src/Engine/Rebuilt.antt =====
-- The .mig file that tsdb_migrate_engine of src/tsdb_migrate.c builds.
use esp_tsdb.Prelude.{ℕ, ◌+◌, ◌-◌, ◌*◌, ◌/◌, ◌^◌, ◌≤◌, ◌<◌, ◌≡◌, ◌⊎◌, Option}
use esp_tsdb.Bytes.{Mem}
use esp_tsdb.Format.{Header, EspErr, u32}
use esp_tsdb.Storage.{done}
use esp_tsdb.Handle.{Handle}
use esp_tsdb.Write.{new_block}
use esp_tsdb.Ring.{History, IsGeometry, available}
use esp_tsdb.Query.{available_records}
use esp_tsdb.Engine.{Plan}
use esp_tsdb.Engine.Build.{EngineEnv, Copy, new_header, start_file, copy_loop, final_header}
use esp_tsdb.Engine.Copies.{Stored}

-- Every write goes through.
pub record AllDone (env : EngineEnv) : Type 0 where
  pub first_header : env.first_header ≡ done
  pub name : (i : ℕ) → env.name i ≡ done
  pub zero_entry : (i : ℕ) → env.zero_entry i ≡ done
  pub block : (k : ℕ) → env.block k ≡ done
  pub last_header : env.last_header ≡ done

-- A plan for `available` records whose blocks have room for their rows and whose file ends below 2 ^ 32.
pub record IsPlan (p : Plan) (available : ℕ) : Type 0 where
  pub some_records : 0 < p.retain
  pub there : p.retain ≤ available
  pub capacity : (p.max ≡ 0) ⊎ (p.retain ≤ p.max)
  pub rpb_pos : 0 < p.rpb
  pub rpb_small : p.rpb < 2 ^ 16
  pub columns_fit : 8 + p.rpb * 4 + p.count * p.rpb * 2 ≤ 1024
  pub header_below : 584 ≤ p.index_offset + p.index_entries * 8
  pub room : p.index_offset + p.index_entries * 8 + ((p.retain - 1) / p.rpb + 1) * 1024 ≤ u32

module _ (nh : Header) (rows : History) (w : ℕ) (c : Copy) (st : Stored nh rows w c)
    (g : IsGeometry nh) (cap : (nh.max_records ≡ 0) ⊎ (w ≤ nh.max_records)) where
  abbrev last : Header
  last = final_header c.header c.out_written

-- The parts of build_file, when each goes through.
module _ (db : Handle) (p : Plan) (names : ℕ → Option Mem) (col_map : ℕ → Option ℕ)
    (env : EngineEnv) (rd_blk : Mem) where
  abbrev nh : Header
  nh = new_header db.header p names

  abbrev skip : ℕ
  skip = available_records db.header - p.retain

  abbrev begin : Copy
  begin = record {
    out = (start_file nh names env).1;
    wr_blk = new_block;
    cache = record { cached_blk = u32 - 1; blk_buf = rd_blk };
    header = nh;
    out_written = 0;
  }

  abbrev looped : EspErr × Copy
  looped =
      copy_loop (available_records db.header - skip) skip db (available_records db.header) col_map
        env begin
