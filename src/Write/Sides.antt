-- ===== src/Write/Sides.antt =====
-- What tsdb_write_h leaves of the sidecar state up to its own tsdb_sidecar_write.
use mathlib.Core.Path.{subst}
use esp_tsdb.Prelude.{
  ℕ, zero, suc, ◌≡◌, ◌/◌, ◌%◌, ◌==◌, refl, ◌∙◌, Bool, true, false, Bool-cases, inl, inr, Option,
  none, some, not, ◌&&◌, ltb,
}
use esp_tsdb.Storage.{Outcome, done, cut}
use esp_tsdb.Handle.{Handle, SideFiles}
use esp_tsdb.Write.{
  WriteEnv, Pass, again, failed, stored, write_pass, write_passes, free_space_guard, guard_applies,
  evict_if_full, is_eviction, record_idx, persist_header, cap_capacity, refresh_oldest, mark_index,
  count_record, finish_write, commit_record,
}
use esp_tsdb.Sidecar.{sidecar_write}
use esp_tsdb.Ring.{Row}
use esp_tsdb.Ring.Commit.{write_overflow_none}
use esp_tsdb.Ring.Stored.{wrote, store_record_done, store_record_fail, store_record_full}
use esp_tsdb.Ring.Writes.{write_pass_lem}

-- The sidecar files and their counters.
pub record Sides : Type 0 where
  pub side : SideFiles
  pub sidecar_seq : ℕ
  pub sidecar_slot : ℕ
  pub legacy_seq : ℕ
  pub legacy_slot : ℕ
  pub side_dir_ready : Bool

abbrev pub sides : Handle → Sides
sides db = record {
  side = db.side;
  sidecar_seq = db.sidecar_seq;
  sidecar_slot = db.sidecar_slot;
  legacy_seq = db.legacy_seq;
  legacy_slot = db.legacy_slot;
  side_dir_ready = db.side_dir_ready;
}

abbrev PassSides : Sides → Pass → Type 0
PassSides s (again d) = sides d ≡ s
PassSides s (failed e d) = sides d ≡ s
PassSides s (stored ev idx d) = sides d ≡ s

sides-evict : (db : Handle) → sides (evict_if_full db) ≡ sides db
unfolding evict_if_full
sides-evict db = elim (Bool-cases (is_eviction db.header)) [ inl e ↦ rw e refl | inr e ↦ rw e refl ]

sides-capped :
    (db : Handle) (a b : Outcome) → sides (persist_header (cap_capacity db) a b) ≡ sides db
unfolding persist_header cap_capacity
sides-capped db a b = refl

pub sides-guard : (db : Handle) (env : WriteEnv) → sides (free_space_guard db env) ≡ sides db
unfolding free_space_guard
sides-guard db env = elim (Bool-cases (guard_applies db && ltb env.free_now db.min_free_bytes)) [
  | inl e ↦ rw e (sides-capped db env.guard_header env.guard_header_again)
  | inr e ↦ rw e refl
]

module _ (row : Row) (env : WriteEnv) where
  sides-write_pass :
      (db : Handle) (o : Outcome) → PassSides (sides db) (write_pass db row.ts row.vals env o)
  sides-write_pass db done =
      rw
        (
          write_pass_lem db row env done,
          store_record_done (is_eviction db.header) (record_idx db.header) (evict_if_full db) row
              env,
        )
        (sides-evict db)
  sides-write_pass db (cut n false) =
      rw
        (
          write_pass_lem db row env (cut n false),
          store_record_fail (is_eviction db.header) (record_idx db.header) n (evict_if_full db) row
              env,
        )
        (sides-evict db)
  sides-write_pass db (cut n true) =
      let d = evict_if_full db in
      rw
        (
          write_pass_lem db row env (cut n true),
          store_record_full (is_eviction db.header) (record_idx db.header) n d row env,
        )
        (elim (Bool-cases
          (not (is_eviction db.header) && not d.capacity_adapted && ltb 0 d.header.total_records)) [
            | inr e ↦ rw e (sides-evict db)
            | inl e ↦ rw e (
                sides-capped (wrote d (record_idx db.header) row (cut n true)) env.shrink_header
                  env.shrink_header_again
                ∙ sides-evict db)
          ])

  -- Every pass leaves the sidecars alone.
  abbrev pub PassesSides : Sides → Option Pass → Type 0
  PassesSides s none = Unit {0}
  PassesSides s (some p) = PassSides s p

  pub sides-write_passes :
      (n : ℕ) (db : Handle) → PassesSides (sides db) (write_passes n db row.ts row.vals env)
  unfolding write_passes
  sides-write_passes zero db = tt
  sides-write_passes (suc n) db =
      go (λ d. sides-write_passes n d) (write_pass db row.ts row.vals env (env.block n))
        (sides-write_pass db (env.block n))
    where
      go :
          ((d : Handle) → PassesSides (sides d) (write_passes n d row.ts row.vals env))
          → (p : Pass) → PassSides (sides db) p
          → PassesSides (sides db) (elim p [
            | again d ↦ write_passes n d row.ts row.vals env
            | failed e d ↦ some (failed e d)
            | stored ev idx d ↦ some (stored ev idx d)
          ])
      go rec (again d) e =
          subst (λ s. PassesSides s (write_passes n d row.ts row.vals env)) e (rec d)
      go rec (failed x d) e = e
      go rec (stored ev idx d) e = e

sides-refresh : (ev : Bool) (ts : ℕ) (db : Handle) → sides (refresh_oldest ev ts db) ≡ sides db
unfolding refresh_oldest
sides-refresh true ts db = refl
sides-refresh false ts db = elim (Bool-cases (db.header.total_records == 1)) [
  | inl e ↦ rw e refl
  | inr e ↦ rw e refl
]

sides-mark : (idx : ℕ) (db : Handle) → sides (mark_index idx db) ≡ sides db
unfolding mark_index
sides-mark idx db =
    elim (Bool-cases (
      (idx % db.header.index_stride == 0)
      && ltb (idx / db.header.index_stride) db.header.index_entries)) [
        | inl e ↦ rw e refl
        | inr e ↦ rw e refl
      ]

-- The handle that tsdb_sidecar_write gets, after the block write.
abbrev pub committed : (ev : Bool) (idx ts : ℕ) → Handle → Handle
committed ev idx ts db =
    mark_index idx (refresh_oldest ev ts (record db { header = count_record db.header idx ts }))

pub sides-committed :
    (ev : Bool) (idx ts : ℕ) (db : Handle) → sides (committed ev idx ts db) ≡ sides db
sides-committed ev idx ts db =
    sides-mark idx (refresh_oldest ev ts (record db { header = count_record db.header idx ts }))
    ∙ sides-refresh ev ts (record db { header = count_record db.header idx ts })

pub finish-committed :
    (ev : Bool) (idx : ℕ) (row : Row) (env : WriteEnv) (db : Handle)
    → db.extra_param_count ≡ 0
    → let d = (sidecar_write (committed ev idx row.ts db) env.sidecar).1 in
      ((finish_write ev idx row.ts row.vals env db).header ≡ d.header)
      × ((finish_write ev idx row.ts row.vals env db).side ≡ d.side)
unfolding finish_write commit_record
finish-committed ev idx row env db none_extra =
    rw (write_overflow_none db row.vals env.overflow none_extra) (refl, refl)
