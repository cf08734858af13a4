-- ===== src/Write/Passes.antt =====
-- The retry of tsdb_write_h.
use esp_tsdb.Prelude.{
  ◌≡◌, refl, arith, ◌∙◌, sym, Bool, true, false, Bool-cases, inl, inr, none, some, not, ◌&&◌, ltb,
}
use esp_tsdb.Storage.{Outcome, done, cut}
use esp_tsdb.Handle.{Handle}
use esp_tsdb.Write.{
  WriteEnv, Pass, again, failed, stored, write_pass, write_passes, write_fuel, evict_if_full,
  is_eviction, record_idx, persist_header, cap_capacity,
}
use esp_tsdb.Ring.{Row}
use esp_tsdb.Ring.Stored.{
  wrote, store_record_done, store_record_fail, store_record_full, evict_if_full-Started,
}
use esp_tsdb.Ring.Writes.{write_pass_lem}

-- Only a handle that has not adapted asks for another pass, and then it has.
abbrev Retry : Handle → Pass → Type 0
Retry db (again d) = (db.capacity_adapted ≡ false) × (d.capacity_adapted ≡ true)
Retry db (failed e d) = Unit {0}
Retry db (stored ev idx d) = Unit {0}

capped_adapted :
    (db : Handle) (a b : Outcome) → (persist_header (cap_capacity db) a b).capacity_adapted ≡ true
unfolding persist_header cap_capacity
capped_adapted db a b = refl

not_adapted : (a b c : Bool) → (not a && not b && c) ≡ true → b ≡ false
not_adapted a b c e = ground arith

-- A pass that is over.
abbrev pub IsFinal : Pass → Type 0
IsFinal (again d) = ⊥
IsFinal (failed e d) = Unit {0}
IsFinal (stored ev idx d) = Unit {0}

module _ (row : Row) (env : WriteEnv) where
  write_pass-Retry : (db : Handle) (o : Outcome) → Retry db (write_pass db row.ts row.vals env o)
  write_pass-Retry db done =
      rw
        (
          write_pass_lem db row env done,
          store_record_done (is_eviction db.header) (record_idx db.header) (evict_if_full db) row
              env,
        )
        tt
  write_pass-Retry db (cut n false) =
      rw
        (
          write_pass_lem db row env (cut n false),
          store_record_fail (is_eviction db.header) (record_idx db.header) n (evict_if_full db) row
              env,
        )
        tt
  write_pass-Retry db (cut n true) =
      let d = evict_if_full db in
      rw
        (
          write_pass_lem db row env (cut n true),
          store_record_full (is_eviction db.header) (record_idx db.header) n d row env,
        )
        (elim (Bool-cases
          (not (is_eviction db.header) && not d.capacity_adapted && ltb 0 d.header.total_records)) [
            | inr e ↦ rw e tt
            | inl e ↦ rw e (
              sym (evict_if_full-Started db).adapted ∙ not_adapted _ _ _ e,
              capped_adapted (wrote d (record_idx db.header) row (cut n true)) env.shrink_header
                  env.shrink_header_again,
            )
          ])

  -- With the fuel of tsdb_write_h the passes end, in a pass that does not ask for another one: `goto
  -- retry_write` is taken at most once, on any handle and however the writes of the call end.
  pub write_passes-Ends :
      (db : Handle)
      → (p : Pass) × (write_passes write_fuel db row.ts row.vals env ≡ some p) × IsFinal p
  unfolding write_passes
  write_passes-Ends db =
      first (write_pass db row.ts row.vals env (env.block 1)) (write_pass-Retry db (env.block 1))
    where
      second :
          (d : Handle) (p : Pass)
          → Retry d p
          → d.capacity_adapted ≡ true
          → (q : Pass) × ((elim p [
            | again d' ↦ none
            | failed e d' ↦ some (failed e d')
            | stored ev idx d' ↦ some (stored ev idx d')
          ])
              ≡ some q)
            × IsFinal q
      second d (again d') r ad = absurd (cc (ad, r.0))
      second d (failed e d') r ad = (failed e d', refl, tt)
      second d (stored ev idx d') r ad = (stored ev idx d', refl, tt)

      first :
          (p : Pass)
          → Retry db p
          → (q : Pass) × ((elim p [
            | again d' ↦ write_passes 1 d' row.ts row.vals env
            | failed e d' ↦ some (failed e d')
            | stored ev idx d' ↦ some (stored ev idx d')
          ])
              ≡ some q)
            × IsFinal q
      first (again d) r =
          second d (write_pass d row.ts row.vals env (env.block 0))
            (write_pass-Retry d (env.block 0)) r.1
      first (failed e d) r = (failed e d, refl, tt)
      first (stored ev idx d) r = (stored ev idx d, refl, tt)
