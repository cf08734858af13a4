-- ===== src/Ring/Writes.antt =====
-- tsdb_write_h refines appending a row to the history, through retries, capacity caps and failures.
use mathlib.Core.Path.{subst}
use native.Mathlib.Nat.{mod_self, zero-div}
use esp_tsdb.Prelude.{
  ltb→lt, ℕ, ◌+◌, ◌/◌, ◌≤◌, ◌<◌, ◌≡◌, ◌≢◌, ◌⊎◌, inl, inr, arith, refl, ◌∙◌, sym, ltb, Bool, true,
  false, Bool-cases, not, ◌&&◌,
}
use esp_tsdb.Format.{Header, esp_ok}
use esp_tsdb.Storage.{File, Outcome, done, cut}
use esp_tsdb.Handle.{Handle}
use esp_tsdb.Write.{
  WriteEnv, Pass, again, failed, stored, record_idx, is_eviction, evict_if_full, count_record,
  store_record, write_pass, cap_capacity, persist_header,
}
use esp_tsdb.Ring.{Row, History, append, Holds, Rep, available, slot_of, block_start}
use esp_tsdb.Ring.Keep.{Rep-cap_capacity, Rep-persist_header, Holds-cong}
use esp_tsdb.Ring.Append.{slot_ne_growing, record_idx-slot_of}
use esp_tsdb.Ring.Stored.{
  FitsRow, CanWrite, wrote, store_record_done, store_record_fail, store_record_full,
  evict_if_full-Started, header-evict_if_full, other_slots, stored_Rep,
}

-- Every retained row is in its slot but the one that the write was for.
abbrev pub Survives : Handle → History → Type 0
Survives d hist =
    (i : ℕ)
    → d.header.total_records ≤ i + available d.header
    → i < d.header.total_records
    → slot_of d.header i ≢ record_idx d.header
    → Holds d.header d.file (slot_of d.header i) (hist i)

-- The same count of records, and the same capacity or one that is capped at that count.
abbrev pub SameCapacity : Header → Header → Type 0
SameCapacity h h' =
    (h'.total_records ≡ h.total_records)
    × ((h'.max_records ≡ h.max_records) ⊎ (h'.max_records ≡ h.total_records))

-- What a write leaves behind. `again` does not leave tsdb_write_h.
abbrev pub PassPost : Handle → History → Row → Pass → Type 0
PassPost db hist row (again d) =
    Rep d.header d.file hist
    × CanWrite d
    × FitsRow d.header row
    × (d.capacity_adapted ≡ true)
    × SameCapacity db.header d.header
    × (db.capacity_adapted ≡ false)
PassPost db hist row (failed e d) = (e ≢ esp_ok) × Survives d hist × SameCapacity db.header d.header
PassPost db hist row (stored ev idx d) =
    Rep (count_record d.header idx row.ts) d.file (append hist db.header.total_records row)
    × (d.extra_param_count ≡ 0)
    × (d.header.total_records ≡ db.header.total_records)

pub write_pass_lem :
    (db : Handle) (row : Row) (env : WriteEnv) (o : Outcome)
    → write_pass db row.ts row.vals env o
      ≡ store_record
          (is_eviction db.header)
          (record_idx db.header)
          (evict_if_full db)
          row.ts
          row.vals
          env
          o
unfolding write_pass
write_pass_lem db row env o = refl

not_full :
    (h : Header) → is_eviction h ≡ false → (h.max_records ≡ 0) ⊎ (h.total_records < h.max_records)
unfolding is_eviction
not_full h e = ground arith

pub capped_idx : (h : Header) → record_idx (record h { max_records = h.total_records }) ≡ 0
unfolding record_idx
capped_idx h = ground (arith, mod_self h.total_records)

retry_cond : (a b c : Bool) → (not a && not b && c) ≡ true → (a ≡ false) × (b ≡ false) × (c ≡ true)
retry_cond a b c e = ground arith

module _ (db : Handle) (hist : History) (row : Row) (v : Rep db.header db.file hist)
    (can : CanWrite db) (fits : FitsRow db.header row) where
  abbrev first : Handle
  first = evict_if_full db

  ring_begun :
      (available first.header ≡ available db.header)
      × ((i : ℕ) → slot_of first.header i ≡ slot_of db.header i)
      × (record_idx first.header ≡ record_idx db.header)
  unfolding available slot_of record_idx
  ring_begun =
      let st = evict_if_full-Started db in
      (rw (st.total, st.max) refl, λ i. rw st.max refl, rw (st.total, st.max) refl)

  survives : (o : Outcome) → Survives (wrote first (record_idx db.header) row o) hist
  survives o i lo hi ne =
      let st = evict_if_full-Started db in
      let (av, sl, ri) = ring_begun in
      rw (sl i) (
        Holds-cong db.header first.header (wrote first (record_idx db.header) row o).file
          (slot_of db.header i) (hist i) (sym st.rpb) (sym st.np) (sym st.start)
          (other_slots db hist row v can fits o (slot_of db.header i) (hist i)
            (λ e. ne (sl i ∙ e ∙ sym ri))
            (v.rows i (omega (arith, st.total, av)) (omega (arith, st.total)))))

  same_capacity : SameCapacity db.header first.header
  same_capacity = ((evict_if_full-Started db).total, inl (evict_if_full-Started db).max)

  -- The retry starts from the same rows under the capped capacity.
  retry :
      (n : ℕ) (a b : Outcome)
      → is_eviction db.header ≡ false
      → 0 < db.header.total_records
      → db.capacity_adapted ≡ false
      → PassPost db hist row (
          again (
            persist_header
              (cap_capacity (wrote first (record_idx db.header) row (cut n true)))
              a
              b))
  unfolding persist_header cap_capacity
  retry n a b growing pos fresh =
      let st = evict_if_full-Started db in
      (
        rep',
        record {
          no_overflow = st.extra ∙ can.no_overflow;
          counts = omega (arith, can.counts, st.total);
          capacity = omega (arith, can.counts, st.total);
          room = rw (capped_idx first.header) (
              omega (
                arith,
                can.room,
                st.rpb,
                st.start,
                zero-div first.header.records_per_block,
                block_zero,
              ));
        },
        record { ts = fits.ts; vals = λ p k. fits.vals p (omega (arith, st.np)) },
        refl,
        (st.total, inr st.total),
        fresh,
      )
    where
      f' : File
      f' = (wrote first (record_idx db.header) row (cut n true)).file

      grows : (db.header.max_records ≡ 0) ⊎ (db.header.total_records < db.header.max_records)
      grows = not_full db.header growing

      same : Rep db.header f' hist
      same = record {
        geometry = v.geometry;
        oldest = v.oldest;
        rows = λ i lo hi.
            other_slots db hist row v can fits (cut n true) (slot_of db.header i) (hist i)
              (rw (record_idx-slot_of db.header) (slot_ne_growing db.header i grows hi))
              (v.rows i lo hi);
      }

      same' : Rep first.header f' hist
      same' = subst (λ h. Rep h f' hist) (sym (header-evict_if_full db ∙ (rw growing refl))) same

      capped : Handle
      capped = cap_capacity (wrote first (record_idx db.header) row (cut n true))

      rep' : Rep capped.header (persist_header capped a b).file hist
      rep' = Rep-persist_header capped hist a b (
          Rep-cap_capacity (wrote first (record_idx db.header) row (cut n true)) hist
            (omega (arith, pos, (evict_if_full-Started db).total))
            (omega (arith, grows, (evict_if_full-Started db).total, (evict_if_full-Started db).max))
            same')

      block_zero :
          block_start db.header (0 / db.header.records_per_block + 1)
          ≤ block_start db.header (record_idx db.header / db.header.records_per_block + 1)
      block_zero = omega (arith, zero-div db.header.records_per_block)

  pub pass_post :
      (env : WriteEnv) (o : Outcome) → PassPost db hist row (write_pass db row.ts row.vals env o)
  pass_post env done =
      rw
        (
          write_pass_lem db row env done,
          store_record_done (is_eviction db.header) (record_idx db.header) first row env,
        )
        (
          stored_Rep db hist row v can fits,
          (evict_if_full-Started db).extra ∙ can.no_overflow,
          (evict_if_full-Started db).total,
        )
  pass_post env (cut n false) =
      rw
        (
          write_pass_lem db row env (cut n false),
          store_record_fail (is_eviction db.header) (record_idx db.header) n first row env,
        )
        (λ e. cc, survives (cut n false), same_capacity)
  pass_post env (cut n true) =
      rw
        (
          write_pass_lem db row env (cut n true),
          store_record_full (is_eviction db.header) (record_idx db.header) n first row env,
        )
        (elim (Bool-cases (
          not (is_eviction db.header)
          && not first.capacity_adapted
          && ltb 0 first.header.total_records)) [
            | inr e ↦ rw e (λ e. cc, survives (cut n true), same_capacity)
            | inl e ↦ rw e (
                let (ev, ad, pos) = retry_cond _ _ _ e in
                retry n env.shrink_header env.shrink_header_again ev
                  (omega (
                    arith,
                    ltb→lt 0 first.header.total_records pos,
                    (evict_if_full-Started db).total,
                  ))
                  (sym (evict_if_full-Started db).adapted ∙ ad))
          ])
