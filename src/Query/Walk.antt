-- ===== src/Query/Walk.antt =====
-- The walk of tsdb_query_next over the ring.
use mathlib.Core.Path.{fun_ext}
use native.Mathlib.Nat.{mod-lt}
use esp_tsdb.Prelude.{
  ℕ, zero, suc, ◌+◌, ◌-◌, ◌%◌, ◌≤◌, ◌<◌, ◌≡◌, ◌≢◌, inl, inr, arith, refl, ◌∙◌, sym, ap, ltb,
  Bool-cases, if◌then◌else◌, true, some, ltb→lt, ◌==◌, ==_iff, List, [], ◌∷◌,
}
use esp_tsdb.Bytes.{from_offset}
use esp_tsdb.Format.{add32, block_ts}
use esp_tsdb.Handle.{Handle}
use esp_tsdb.Write.{Values, read_block}
use esp_tsdb.Ring.{History, available, block_start}
use esp_tsdb.Ring.Frame.{read_block-Holds}
use esp_tsdb.Query.{
  Query, place, load_current, advance, column, Fetched, found, ended, next_loop, query_next, drain,
  slot_at, first_slot,
}
use esp_tsdb.Query.Seek.{
  Series, oldest_number, available-le, available-le-max, retained, block_ts-Holds,
}
use esp_tsdb.Query.Window.{value_of, window, window-in, window-out, window-beyond}
use esp_tsdb.Query.Rounds.{
  if_true, if_false, load_loaded, load_read, column_base, column_none, block_param-Holds, div_pos,
  mod_pos, both, next_wrapped, advance-SameAsk, SameAsk-trans, verdict-cases, drain_stop,
  drain_more, next_skip, next_beyond, next_hit, At, SameAsk,
}

module _ (db : Handle) (hist : History) (v : Series db hist) where
  abbrev number : ℕ → ℕ
  number k = oldest_number db.header + k

  -- With its block loaded, the query's buffer is that block.
  loaded :
      (q : Query) (k : ℕ)
      → At db q k
      → k < available db.header
      → (q' : Query) × (load_current db q ≡ some q')
        × At db q' k
        × SameAsk q q'
        × (q'.block_loaded ≡ true)
  loaded q k at lt = elim (Bool-cases q.block_loaded) [
    | inl e ↦ (q, load_loaded db q e, at, record { start = refl; end_ = refl; indices = refl }, e)
    | inr e ↦
        let held = retained db hist k v lt in
        let s = slot_at db.header (first_slot db.header) k in
        let m = from_offset db.file.bytes (block_start db.header q.current_block_num) in
        let r : read_block db q.current_block_num ≡ some m =
          rw (at.block, at.slot) (read_block-Holds db s (hist (number k)) held) in
        (
          record q { block_buffer = m; block_loaded = true },
          load_read db q m e r,
          record {
            header = at.header;
            scanned = at.scanned;
            total = at.total;
            slot = at.slot;
            block = at.block;
            offset = at.offset;
            buffer = λ _. refl;
          },
          record { start = refl; end_ = refl; indices = refl },
          refl,
        )
  ]

  -- The loaded query reads the record's timestamp and columns.
  current_ts :
      (q : Query) (k : ℕ)
      → At db q k
      → k < available db.header
      → q.block_loaded ≡ true
      → block_ts q.block_buffer q.offset_in_block ≡ (hist (number k)).ts
  current_ts q k at lt e =
      rw (at.buffer e, at.offset, at.block, at.slot)
        (block_ts-Holds db.header db.file _ (hist (number k)) (retained db hist k v lt))

  current_column :
      (q : Query) (k p : ℕ)
      → At db q k
      → k < available db.header
      → q.block_loaded ≡ true
      → db.extra_param_count ≡ 0
      → column db q p ≡ value_of db.header.num_params (hist (number k)) p
  unfolding column
  current_column q k p at lt e none_extra = elim (Bool-cases (ltb p db.header.num_params)) [
    | inl base ↦
        column_base db q p (rw at.header base)
        ∙ (rw (at.header, at.buffer e, at.offset, at.block, at.slot)
            (block_param-Holds db.header db.file _ p (hist (number k)) (retained db hist k v lt)
              (ltb→lt p db.header.num_params base)))
        ∙ sym (if_true (ltb p db.header.num_params) _ _ base)
    | inr extra ↦
        column_none db q p (rw at.header extra) none_extra
        ∙ sym (if_false (ltb p db.header.num_params) _ _ extra)
  ]

  next_slot :
      (k : ℕ)
      → k < available db.header
      → let up = add32 (slot_at db.header (first_slot db.header) k) 1 in
        (if db.header.max_records == 0 then up else up % db.header.max_records)
        ≡ slot_at db.header (first_slot db.header) (k + 1)
  unfolding slot_at first_slot
  next_slot k lt = elim (Bool-cases (db.header.max_records == 0)) [
    | inl e ↦ rw e (let c = v.counts in let a = available-le db.header in omega arith)
    | inr e ↦ rw e (
        let nz : db.header.max_records ≢ 0 = ground arith in
        let c = available-le-max db.header nz in
        next_wrapped db.header.oldest_record_idx k db.header.max_records
          (rw v.rep.oldest (mod-lt (oldest_number db.header) (omega arith))) (omega arith) v.small)
  ]

  advanced : (q : Query) (k : ℕ) → At db q k → k < available db.header → At db (advance q) (k + 1)
  unfolding advance place
  advanced q k at lt = record {
    header = at.header;
    scanned = let c = v.counts in omega (arith, at.scanned, available-le db.header);
    total = at.total;
    slot = rw (at.header, at.slot) (next_slot k lt);
    block = rw at.header (div_pos _ _ v.rep.geometry.rpb_pos);
    offset = rw at.header (mod_pos _ _ v.rep.geometry.rpb_pos);
    buffer = λ l.
        let (was, same) = both q.block_loaded _ l in
        at.buffer was
        ∙ ap (λ b. from_offset db.file.bytes (block_start db.header b)) (sym ((==_iff _ _).0 same));
  }

  -- What the loop of tsdb_query_next gives when `n` records are left from position `k` on.
  abbrev NextPost : (q : Query) (k n : ℕ) → Fetched × Query → Type 0
  NextPost q k n (ended, q') =
      window q.start_time q.end_time db.header.num_params q.param_indices hist (number k) n ≡ []
  NextPost q k n (found ts vals, q') =
      (k' : ℕ) × (k < k')
      × (k' ≤ k + n)
      × At db q' k'
      × SameAsk q q'
      × (window q.start_time q.end_time db.header.num_params q.param_indices hist (number k) n
          ≡ (ts, vals)
            ∷ window q.start_time q.end_time db.header.num_params q.param_indices hist (number k')
                (k + n - k'))

  -- The window from position `k` on, as a query sees it.
  abbrev seen : (q : Query) (k n : ℕ) → List (ℕ × Values)
  seen q k n = window q.start_time q.end_time db.header.num_params q.param_indices hist (number k) n

  seen-SameAsk : (q q' : Query) (k n : ℕ) → SameAsk q q' → seen q' k n ≡ seen q k n
  seen-SameAsk q q' k n a = rw (a.start, a.end_, a.indices) refl

  number_suc : (k : ℕ) → number (k + 1) ≡ number k + 1
  number_suc k = omega arith

  seen_out :
      (q q' : Query) (k n : ℕ)
      → SameAsk q q'
      → (hist (number k)).ts < q.start_time
      → seen q k (suc n) ≡ seen q' (k + 1) n
  seen_out q q' k n a early =
      window-out q.start_time q.end_time db.header.num_params q.param_indices hist (number k) n
        (inl early)
      ∙ (rw (a.start, a.end_, a.indices, number_suc k) refl)

  pass_over :
      (q q' : Query) (k n : ℕ) (r : Fetched × Query)
      → SameAsk q q'
      → (hist (number k)).ts < q.start_time
      → NextPost q' (k + 1) n r
      → NextPost q k (suc n) r
  pass_over q q' k n (ended, q2) a early post = seen_out q q' k n a early ∙ post
  pass_over q q' k n (found ts vals, q2) a early (k', lo, hi, at, ask, e) = (
    k',
    omega arith,
    omega arith,
    at,
    SameAsk-trans a ask,
    seen_out q q' k n a early
        ∙ e
        ∙ ap (λ w. (ts, vals) ∷ w)
            (let c : k + 1 + n - k' ≡ k + suc n - k' = omega arith in
              rw (a.start, a.end_, a.indices, c) refl),
  )

  hit_values :
      (q q1 : Query) (k : ℕ)
      → At db q1 k
      → SameAsk q q1
      → q1.block_loaded ≡ true
      → k < available db.header
      → db.extra_param_count ≡ 0
      → ◌≡◌ {A = Values}
          (λ i. column db q1 (q1.param_indices i))
          (λ i. value_of db.header.num_params (hist (number k)) (q.param_indices i))
  hit_values q q1 k at1 ask ok lt none_extra =
      fun_ext
        (λ i. current_column q1 k (q1.param_indices i) at1 lt ok none_extra ∙ (rw ask.indices refl))

  hit_post :
      (q q1 : Query) (k n : ℕ)
      → At db q1 k
      → SameAsk q q1
      → q1.block_loaded ≡ true
      → k < available db.header
      → db.extra_param_count ≡ 0
      → q.start_time ≤ (hist (number k)).ts
      → (hist (number k)).ts ≤ q.end_time
      → NextPost q k (suc n) (
        found
            (block_ts q1.block_buffer q1.offset_in_block)
            (λ i. column db q1 (q1.param_indices i)),
        advance q1,
      )
  hit_post q q1 k n at1 ask ok lt none_extra lo hi = (
    k + 1,
    omega arith,
    omega arith,
    advanced q1 k at1 lt,
    SameAsk-trans ask (advance-SameAsk q1),
    window-in q.start_time q.end_time db.header.num_params q.param_indices hist (number k) n lo hi
        ∙ (let c : k + suc n - (k + 1) ≡ n = omega arith in
            rw
              (
                current_ts q1 k at1 lt ok,
                hit_values q q1 k at1 ask ok lt none_extra,
                c,
                number_suc k,
              )
              refl),
  )

  next_loop-NextPost :
      (n k : ℕ) (q : Query)
      → At db q k
      → k + n ≡ available db.header
      → db.extra_param_count ≡ 0
      → NextPost q k n (next_loop n db q)
  next_loop-NextPost zero k q at e none_extra = unfold next_loop in unfold window in refl
  next_loop-NextPost (suc n) k q at e none_extra =
      let lt : k < available db.header = omega arith in
      let (q1, load, at1, ask, ok) = loaded q k at lt in
      let row = hist (number k) in
      let t = current_ts q1 k at1 lt ok in
      let ne : row.ts ≢ 0 =
        v.nonzero (number k) (omega arith) (omega (arith, available-le db.header)) in
      elim (verdict-cases row.ts q.start_time q.end_time ne) [
        | inl (b, later) ↦ rw (next_beyond n db q q1 load (rw t b)) (
            window-beyond q.start_time q.end_time db.header.num_params q.param_indices hist
              (number k) (suc n)
              (λ j a c. omega (
                arith,
                later,
                v.ascending (number k) j (omega arith) a (omega (arith, available-le db.header, e)),
              )))
        | inr (inl (s, early, _)) ↦
            let a = SameAsk-trans ask (advance-SameAsk q1) in
            rw (next_skip n db q q1 load (rw t s)) (
              pass_over q (advance q1) k n (next_loop n db (advance q1)) a early (
                next_loop-NextPost n (k + 1) (advance q1) (advanced q1 k at1 lt) (omega arith)
                  none_extra))
        | inr (inr (h, lo, hi)) ↦
            rw (next_hit n db q q1 load (rw t h)) (hit_post q q1 k n at1 ask ok lt none_extra lo hi)
      ]

  -- tsdb_query_next gives the next row in range, and leaves the cursor behind it.
  query_next-NextPost :
      (q : Query) (k : ℕ)
      → At db q k
      → k ≤ available db.header
      → db.extra_param_count ≡ 0
      → NextPost q k (available db.header - k) (query_next db q)
  unfolding query_next
  query_next-NextPost q k at le none_extra =
      let c : q.end_record_idx - q.records_scanned ≡ available db.header - k =
        omega (arith, at.total, at.scanned) in
      rw c (next_loop-NextPost (available db.header - k) k q at (omega arith) none_extra)

  drain_post :
      (fuel : ℕ) (q : Query) (k : ℕ) (r : Fetched × Query)
      → query_next db q ≡ r
      → NextPost q k (available db.header - k) r
      → k ≤ available db.header
      → ((q' : Query) (k' : ℕ)
          → k < k'
          → k' ≤ available db.header
          → At db q' k'
          → SameAsk q q'
          → drain fuel db q' ≡ some (seen q k' (available db.header - k')))
      → drain (suc fuel) db q ≡ some (seen q k (available db.header - k))
  drain_post fuel q k (ended, q') e post le rest = drain_stop fuel db q q' e ∙ ap some (sym post)
  drain_post fuel q k (found ts vals, q') e (k', lo, hi, at, ask, w) le rest =
      drain_more fuel db q q' ts vals _ e (rest q' k' lo (omega arith) at ask)
      ∙ ap some (
          let c : k + (available db.header - k) - k' ≡ available db.header - k' = omega arith in
          sym (w ∙ (rw c refl)))

  pub drain-window :
      (fuel : ℕ) (q : Query) (k : ℕ)
      → At db q k
      → k ≤ available db.header
      → available db.header < k + fuel
      → db.extra_param_count ≡ 0
      → drain fuel db q ≡ some (seen q k (available db.header - k))
  drain-window zero q k at le f none_extra = absurd (omega arith)
  drain-window (suc fuel) q k at le f none_extra =
      drain_post fuel q k (query_next db q) refl (query_next-NextPost q k at le none_extra) le
        (λ q' k' lo hi at' ask.
          drain-window fuel q' k' at' hi (omega arith) none_extra
          ∙ ap some (seen-SameAsk q q' k' (available db.header - k') ask))
