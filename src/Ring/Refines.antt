-- ===== src/Ring/Refines.antt =====
-- The whole of tsdb_write_h against the history.
use mathlib.Core.Path.{subst}
use native.Mathlib.Nat.{zero-div}
use esp_tsdb.Prelude.{
  ℕ, ◌+◌, ◌<◌, ◌≡◌, ◌≢◌, ◌⊎◌, inl, inr, arith, refl, ◌∙◌, sym, Bool, true, Bool-cases, Option, none,
  some, ltb, ◌&&◌,
}
use esp_tsdb.Format.{Header, EspErr, esp_ok, esp_fail, add32}
use esp_tsdb.Storage.{Outcome}
use esp_tsdb.Handle.{Handle}
use esp_tsdb.Write.{
  WriteEnv, Pass, again, failed, stored, write_pass, write_passes, write_locked, finish_write,
  free_space_guard, guard_applies, cap_capacity, persist_header, count_record,
}
use esp_tsdb.Ring.{Row, History, append, Rep}
use esp_tsdb.Ring.Keep.{Rep-cong, Rep-cap_capacity, Rep-persist_header}
use esp_tsdb.Ring.Commit.{finish_write-SameRing}
use esp_tsdb.Ring.Stored.{CanWrite, FitsRow}
use esp_tsdb.Ring.Writes.{PassPost, SameCapacity, Survives, pass_post, capped_idx}

-- How the passes of tsdb_write_h end.
abbrev pub PassesPost : Header → History → Row → Option Pass → Type 0
PassesPost h hist row none = ⊥
PassesPost h hist row (some (again d)) = ⊥
PassesPost h hist row (some (failed e d)) = (e ≢ esp_ok) × Survives d hist × SameCapacity h d.header
PassesPost h hist row (some (stored ev idx d)) =
    Rep (count_record d.header idx row.ts) d.file (append hist h.total_records row)
    × (d.extra_param_count ≡ 0)
    × (d.header.total_records ≡ h.total_records)

SameCapacity-trans : (g h k : Header) → SameCapacity g h → SameCapacity h k → SameCapacity g k
SameCapacity-trans g h k a b = (
  b.0 ∙ a.0,
  elim b.1 [
    | inr e ↦ inr (e ∙ a.0)
    | inl e ↦ elim a.1 [ inl e' ↦ inl (e ∙ e') | inr e' ↦ inr (e ∙ e') ]
  ],
)

module _ (hist : History) (row : Row) (env : WriteEnv) (h : Header) where
  stored_post :
      (ev : Bool) (idx : ℕ) (db d : Handle)
      → SameCapacity h db.header
      → PassPost db hist row (stored ev idx d)
      → PassesPost h hist row (some (stored ev idx d))
  stored_post ev idx db d same post = (
    subst (λ t. Rep (count_record d.header idx row.ts) d.file (append hist t row)) same.0 post.0,
    post.1,
    post.2 ∙ same.0,
  )

  failed_post :
      (e : EspErr) (db d : Handle)
      → SameCapacity h db.header
      → PassPost db hist row (failed e d)
      → PassesPost h hist row (some (failed e d))
  failed_post e db d same post =
      (post.0, post.1, SameCapacity-trans h db.header d.header same post.2)

  -- The second pass, on a handle that has adapted, does not ask for a third.
  second_pass :
      (db : Handle)
      → Rep db.header db.file hist
      → CanWrite db
      → FitsRow db.header row
      → db.capacity_adapted ≡ true
      → SameCapacity h db.header
      → PassesPost h hist row (write_passes 1 db row.ts row.vals env)
  unfolding write_passes
  second_pass db v can fits ad same =
      go (write_pass db row.ts row.vals env (env.block 0))
        (pass_post db hist row v can fits env (env.block 0))
    where
      go :
          (p : Pass)
          → PassPost db hist row p
          → PassesPost h hist row (elim p [
            | again d ↦ none
            | failed e' d ↦ some (failed e' d)
            | stored ev idx d ↦ some (stored ev idx d)
          ])
      go (again d) post = cc (ad, post.5)
      go (failed e' d) post = failed_post e' db d same post
      go (stored ev idx d) post = stored_post ev idx db d same post

  pub passes_post :
      (db : Handle)
      → Rep db.header db.file hist
      → CanWrite db
      → FitsRow db.header row
      → SameCapacity h db.header
      → PassesPost h hist row (write_passes 2 db row.ts row.vals env)
  unfolding write_passes
  passes_post db v can fits same =
      go (write_pass db row.ts row.vals env (env.block 1))
        (pass_post db hist row v can fits env (env.block 1))
    where
      go :
          (p : Pass)
          → PassPost db hist row p
          → PassesPost h hist row (elim p [
            | again d ↦ write_passes 1 d row.ts row.vals env
            | failed e' d ↦ some (failed e' d)
            | stored ev idx d ↦ some (stored ev idx d)
          ])
      go (again d) post =
          second_pass d post.0 post.1 post.2 post.3
            (SameCapacity-trans h db.header d.header same post.4)
      go (failed e' d) post = failed_post e' db d same post
      go (stored ev idx d) post = stored_post ev idx db d same post

-- How tsdb_write_h may end, on a history under the header `h`.
abbrev pub WriteResult : Header → History → Row → EspErr × Handle → Type 0
WriteResult h hist row (e, d) =
    ((e ≡ esp_ok)
      × Rep d.header d.file (append hist h.total_records row)
      × (d.header.total_records ≡ h.total_records + 1))
    ⊎ ((e ≢ esp_ok) × Survives d hist × SameCapacity h d.header)

guard_growing :
    (a b : Bool) (db : Handle)
    → (a && b) ≡ true
    → a ≡ guard_applies db
    → (0 < db.header.total_records) × (db.header.total_records < db.header.max_records)
unfolding guard_applies
guard_growing a b db e h = ground arith

-- What the guard leaves for the passes.
abbrev pub GuardPost : Handle → History → Row → Handle → Type 0
GuardPost db hist row d =
    Rep d.header d.file hist × CanWrite d × FitsRow d.header row × SameCapacity db.header d.header

-- Capping keeps the rows and the conditions of a write.
capped_keeps :
    (db : Handle) (hist : History) (row : Row) (a b : Outcome)
    → Rep db.header db.file hist
    → CanWrite db
    → FitsRow db.header row
    → 0 < db.header.total_records
    → db.header.total_records < db.header.max_records
    → GuardPost db hist row (persist_header (cap_capacity db) a b)
unfolding persist_header cap_capacity
capped_keeps db hist row a b v can fits pos lt = (
  Rep-persist_header (cap_capacity db) hist a b (Rep-cap_capacity db hist pos (inr lt) v),
  record {
    no_overflow = can.no_overflow;
    counts = can.counts;
    capacity = omega (arith, can.counts);
    room =
        rw (capped_idx db.header) (omega (arith, can.room, zero-div db.header.records_per_block));
  },
  record { ts = fits.ts; vals = fits.vals },
  (refl, inr refl),
)

pub guard_keeps :
    (db : Handle) (hist : History) (row : Row) (env : WriteEnv)
    → Rep db.header db.file hist
    → CanWrite db
    → FitsRow db.header row
    → GuardPost db hist row (free_space_guard db env)
unfolding free_space_guard
guard_keeps db hist row env v can fits =
    elim (Bool-cases (guard_applies db && ltb env.free_now db.min_free_bytes)) [
      | inr e ↦ rw e (v, can, fits, (refl, inl refl))
      | inl e ↦
          let (pos, lt) = guard_growing _ _ db e refl in
          rw e (capped_keeps db hist row env.guard_header env.guard_header_again v can fits pos lt)
    ]

count_total :
    (h : Header) (idx ts : ℕ) → (count_record h idx ts).total_records ≡ add32 h.total_records 1
unfolding count_record
count_total h idx ts = refl

-- tsdb_write_h, called under the lock on a handle that holds a history: either it returns ESP_OK
-- and the handle holds that history with the new row at its end, or it returns an error and every
-- retained row but the one in the slot of the new row is in its slot, the count of records is as
-- before, and the capacity is as before or capped at that count. This is with adaptive capacity,
-- eviction and every end of every file write. It is for a handle with no overflow region, counters
-- and block offsets below 2 ^ 32, and a row of 32-bit and 16-bit numbers.
pub write_locked-refines :
    (db : Handle) (hist : History) (row : Row) (env : WriteEnv)
    → Rep db.header db.file hist
    → CanWrite db
    → FitsRow db.header row
    → WriteResult db.header hist row (write_locked db row.ts row.vals env)
unfolding write_locked
write_locked-refines db hist row env v can fits =
    go (write_passes 2 g row.ts row.vals env)
      (passes_post hist row env db.header g kept.0 kept.1 kept.2 kept.3)
  where
    g : Handle
    g = free_space_guard db env

    kept : GuardPost db hist row g
    kept = guard_keeps db hist row env v can fits

    go :
        (p : Option Pass)
        → PassesPost db.header hist row p
        → WriteResult db.header hist row (elim p [
          | none ↦ (esp_fail, db)
          | some (again db') ↦ (esp_fail, db')
          | some (failed e db') ↦ (e, db')
          | some (stored ev idx db') ↦ (esp_ok, finish_write ev idx row.ts row.vals env db')
        ])
    go none post = elim post [ ]
    go (some (again _)) post = elim post [ ]
    go (some (failed e d)) post = inr post
    go (some (stored ev idx d)) post =
        let (same', file) = finish_write-SameRing ev idx row env d post.1 in
        let counted = count_record d.header idx row.ts in
        inl (
          refl,
          Rep-cong counted _ _ _ same' (
              subst (λ f. Rep counted f (append hist db.header.total_records row)) (sym file)
                post.0),
          omega (arith, count_total d.header idx row.ts, same'.total, post.2, can.counts),
        )
