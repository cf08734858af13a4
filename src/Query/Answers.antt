-- ===== src/Query/Answers.antt =====
-- A query from tsdb_query_init_h to its last tsdb_query_next, and tsdb_query_count_h.
use mathlib.Core.Path.{subst}
use native.Mathlib.Nat.{mod-eq_of_lt, mod-lt}
use esp_tsdb.Prelude.{
  ℕ, zero, suc, ◌+◌, ◌-◌, ◌≤◌, ◌<◌, ◌≡◌, ◌≢◌, inl, inr, arith, refl, ◌∙◌, sym, ap, ltb, Bool-cases,
  Option-cases, if◌then◌else◌, Bool, true, false, Option, none, some, ◌==◌, ==_iff, List, ◌&&◌,
  length,
}
use esp_tsdb.Format.{esp_ok, u32, add32, block_size}
use esp_tsdb.Handle.{Handle, lock_open, held}
use esp_tsdb.Write.{Values}
use esp_tsdb.Buffer.{get_buffer_ptr}
use esp_tsdb.Ring.{History, available}
use esp_tsdb.Query.{
  Query, opened, place, blank_query, fresh_query, seek_query, seek_start, params_of, too_many,
  init_locked, query_init_h, drain, drain_all, query_count_h, slot_at, first_slot,
}
use esp_tsdb.Query.Seek.{
  Series, oldest_number, available-le, available_lem, seek_start-IsLowerBound,
}
use esp_tsdb.Query.Rounds.{At, SameAsk}
use esp_tsdb.Query.Walk.{drain-window}
use esp_tsdb.Query.Window.{window, window-skip}

-- A query that is not on its first record yet.
record Unread (db : Handle) (q : Query) : Type 0 where
  header : q.header ≡ db.header
  total : q.end_record_idx ≡ available db.header
  cold : q.block_loaded ≡ false

abbrev seeks : Query → Bool
seeks q =
    ltb 0 q.end_record_idx
    && ltb 0 q.header.records_per_block
    && ltb q.header.oldest_timestamp q.start_time

seek_query_skips : (db : Handle) (q : Query) → seeks q ≡ false → seek_query db q ≡ q
unfolding seek_query
seek_query_skips db q e = ground (arith, e)

seek_query_lands :
    (db : Handle) (q : Query) (k : ℕ)
    → seeks q ≡ true
    → seek_start db q.header q.start_time q.end_record_idx (first_slot q.header) ≡ some k
    → seek_query db q
      ≡ (if ltb 0 k then place q k (slot_at q.header (first_slot q.header) k) else q)
unfolding seek_query
seek_query_lands db q k e f = simp (e, seek_query, f) refl

place-SameAsk : (q : Query) (k s : ℕ) → SameAsk q (place q k s)
unfolding place
place-SameAsk q k s = record { start = refl; end_ = refl; indices = refl }

module _ (db : Handle) (hist : History) (v : Series db hist) where
  place-At :
      (q : Query) (k : ℕ)
      → Unread db q
      → At db (place q k (slot_at q.header (first_slot q.header) k)) k
  unfolding place
  place-At q k u = record {
    header = u.header;
    scanned = refl;
    total = u.total;
    slot = rw u.header refl;
    block = rw u.header (let pos = v.rep.geometry.rpb_pos in ground arith);
    offset = rw u.header (let pos = v.rep.geometry.rpb_pos in ground arith);
    buffer = λ e. cc (u.cold, e);
  }

  first_slot_lem : slot_at db.header (first_slot db.header) 0 ≡ first_slot db.header
  unfolding slot_at first_slot
  first_slot_lem = elim (Bool-cases (db.header.max_records == 0)) [
    | inl e ↦ rw e refl
    | inr e ↦ rw e (
        let nz : db.header.max_records ≢ 0 = ground arith in
        let lt : db.header.oldest_record_idx < db.header.max_records =
          rw v.rep.oldest (mod-lt (oldest_number db.header) (omega arith)) in
        let small = v.small in
        let z : add32 db.header.oldest_record_idx 0 ≡ db.header.oldest_record_idx = omega arith in
        rw z (mod-eq_of_lt lt))
  ]

  -- Where the start seek leaves a query: at a position before which there is nothing in range.
  Sought : (q q' : Query) → Type 0
  Sought q q' =
      (k : ℕ) × At db q' k
      × (k ≤ available db.header)
      × SameAsk q q'
      × ((j : ℕ) → j < k → (hist (oldest_number db.header + j)).ts < q.start_time)

  seek_query-Sought : (q : Query) → Unread db q → At db q 0 → Sought q (seek_query db q)
  unfolding Sought
  seek_query-Sought q u at = elim (Bool-cases (seeks q)) [
    | inr e ↦ rw (seek_query_skips db q e) (
      0,
      at,
      omega arith,
      record { start = refl; end_ = refl; indices = refl },
      λ j lt. absurd (omega arith),
    )
    | inl e ↦
        let (k, f, (le, below, above)) = seek_start-IsLowerBound db hist q.start_time v in
        rw (seek_query_lands db q k e (rw (u.header, u.total) f)) (elim (Bool-cases (ltb 0 k)) [
          | inl pos ↦ rw pos (k, place-At q k u, le, place-SameAsk q k _, below)
          | inr z ↦ rw z (
            0,
            at,
            omega arith,
            record { start = refl; end_ = refl; indices = refl },
            λ j lt. absurd (omega arith),
          )
        ])
  ]

  -- Draining a sought query gives the window of all retained rows.
  drain-Sought :
      (q q' : Query)
      → Sought q q'
      → db.extra_param_count ≡ 0
      → drain_all db q'
        ≡ some (
            window q.start_time q.end_time db.header.num_params q.param_indices hist
              (oldest_number db.header)
              (available db.header))
  unfolding Sought drain_all
  drain-Sought q q' (k, at, le, ask, below) none_extra =
      let c : k + (available db.header - k) ≡ available db.header = omega arith in
      let w =
        window-skip q.start_time q.end_time db.header.num_params q.param_indices hist k
          (oldest_number db.header) (available db.header - k)
          (λ j lo hi.
            let d : j ≡ oldest_number db.header + (j - oldest_number db.header) = omega arith in
            rw d (below (j - oldest_number db.header) (omega arith))) in
      let z : window q'.start_time q'.end_time db.header.num_params q'.param_indices hist
            (oldest_number db.header + k) (available db.header - k)
          ≡ window q.start_time q.end_time db.header.num_params q.param_indices hist
              (oldest_number db.header) (available db.header) =
        rw (ask.start, ask.end_, ask.indices)
          (sym (
            subst
              (λ t.
                window q.start_time q.end_time db.header.num_params q.param_indices hist
                  (oldest_number db.header) t
                ≡ window q.start_time q.end_time db.header.num_params q.param_indices hist
                    (oldest_number db.header + k) (available db.header - k))
              c w)) in
      ap (λ t. drain (t + 1) db q') at.total
      ∙ drain-window db hist v (available db.header + 1) q' k at le (omega arith) none_extra
      ∙ ap some z

  module _ (s e : ℕ) (params : ℕ → ℕ) (n : ℕ) (owns : Bool) where
    blank-Unread : Unread db (blank_query db s e params n owns)
    unfolding blank_query
    blank-Unread = record { header = refl; total = available_lem db.header; cold = refl }

    fresh-Unread : Unread db (fresh_query db s e params n owns)
    unfolding fresh_query place blank_query
    fresh-Unread = record { header = refl; total = available_lem db.header; cold = refl }

    fresh-At : At db (fresh_query db s e params n owns) 0
    unfolding fresh_query blank_query
    fresh-At =
        subst (λ t. At db (place (blank_query db s e params n owns) 0 t) 0) first_slot_lem
          (place-At (blank_query db s e params n owns) 0 blank-Unread)

    -- From the cursor's start to the last record.
    fresh-window :
        db.extra_param_count ≡ 0
        → drain_all db (seek_query db (fresh_query db s e params n owns))
          ≡ some (
              window s e db.header.num_params params hist
                (oldest_number db.header)
                (available db.header))
    unfolding fresh_query place blank_query
    fresh-window none_extra =
        drain-Sought (fresh_query db s e params n owns)
          (seek_query db (fresh_query db s e params n owns))
          (seek_query-Sought (fresh_query db s e params n owns) fresh-Unread fresh-At) none_extra

-- A call that takes the lock of a handle that is open, and stays so.
pub record Enters (seen : Handle) (got : Option Handle) (db : Handle) : Type 0 where
  pub open_seen : seen.is_open ≡ true
  pub no_migration : seen.migrating ≡ false
  pub no_close : seen.closing ≡ false
  pub locked : got ≡ some db
  pub open_db : db.is_open ≡ true
  pub same : db.generation ≡ seen.generation

pub lock_open-Enters :
    (seen : Handle) (got : Option Handle) (db : Handle)
    → Enters seen got db
    → lock_open seen got ≡ held db
unfolding lock_open
lock_open-Enters seen got db en =
    let g : (db.generation == seen.generation) ≡ true = (==_iff _ _).1 en.same in
    rw (en.locked, en.open_db, lock_open, g) refl

-- The rows that a query on a history gives: those of the retained rows that are in the range.
abbrev pub answers : Handle → History → (start_time end_time : ℕ) → (ℕ → ℕ) → List (ℕ × Values)
answers db hist s e params =
    window s e db.header.num_params params hist (oldest_number db.header) (available db.header)

init_opens :
    (db : Handle) (s e : ℕ) (params : Option (ℕ → ℕ)) (n : ℕ)
    → ltb e s ≡ false
    → too_many params n ≡ false
    → (owns : Bool) × (init_locked db s e params n true
        ≡ opened db (
            seek_query db
              (fresh_query db s e (params_of db params n).0 (params_of db params n).1 owns)))
unfolding init_locked
init_opens db s e params n le few =
    elim (Option-cases (get_buffer_ptr db.pool db.query_buffer_offset block_size)) [
      | inl none_left ↦ (true, simp (le, few, init_locked, none_left) refl)
      | inr (ptr, there) ↦ (false, simp (le, few, init_locked, there) refl)
    ]

init-Enters :
    (seen : Handle) (got : Option Handle) (db : Handle) (s e : ℕ) (params : Option (ℕ → ℕ)) (n : ℕ)
    → Enters seen got db
    → query_init_h seen got s e params n true ≡ init_locked db s e params n true
unfolding query_init_h
init-Enters seen got db s e params n en =
    simp (en.open_seen, en.no_migration, en.no_close, query_init_h, lock_open-Enters seen got db en)
      refl

-- tsdb_query_init_h gives a query, and calling tsdb_query_next until it gives no record gives the
-- retained rows whose timestamps are in the range, each once and in their order, with the columns
-- that were asked for. This is for a handle that is entered under the lock, with no overflow region,
-- timestamps that are not 0 and do not descend, start_time <= end_time, at most 64 parameters, and
-- memory for the block buffer.
pub query-answers :
    (seen : Handle) (got : Option Handle) (db : Handle) (hist : History) (start_time end_time : ℕ)
    → (params : Option (ℕ → ℕ)) (n : ℕ) → Enters seen got db
    → Series db hist
    → db.extra_param_count ≡ 0
    → start_time ≤ end_time
    → too_many params n ≡ false
    → (q : Query) × (query_init_h seen got start_time end_time params n true ≡ opened db q)
      × (drain_all db q ≡ some (answers db hist start_time end_time (params_of db params n).0))
query-answers seen got db hist s e params n en v none_extra le few =
    let order : ltb e s ≡ false = ground arith in
    let (owns, o) = init_opens db s e params n order few in
    (
      seek_query db (fresh_query db s e (params_of db params n).0 (params_of db params n).1 owns),
      init-Enters seen got db s e params n en ∙ o,
      fresh-window db hist v s e (params_of db params n).0 (params_of db params n).1 owns
          none_extra,
    )

pub length-window :
    (s e np : ℕ) (idx : ℕ → ℕ) (hist : History) (i n : ℕ) → length (window s e np idx hist i n) ≤ n
unfolding window
length-window s e np idx hist i zero = omega arith
length-window s e np idx hist i (suc n) = ground (arith, length-window s e np idx hist (i + 1) n)

-- tsdb_query_count_h, under the conditions of a query, gives the number of the retained rows whose
-- timestamps are in the range.
pub query_count_h-answers :
    (seen : Handle) (got : Option Handle) (db : Handle) (hist : History) (start_time end_time : ℕ)
    → Enters seen got db
    → Series db hist
    → db.extra_param_count ≡ 0
    → start_time ≤ end_time
    → query_count_h seen got start_time end_time true
      ≡ (esp_ok, length (answers db hist start_time end_time (params_of db none 0).0))
unfolding query_count_h
query_count_h-answers seen got db hist s e en v none_extra le =
    let (q, opens, drained) =
      query-answers seen got db hist s e none 0 en v none_extra le (unfold too_many in refl) in
    let c = v.counts in
    let small : length (answers db hist s e (params_of db none 0).0) < u32 = omega (
      arith,
      length-window s e db.header.num_params (params_of db none 0).0 hist (oldest_number db.header)
          (available db.header),
      available-le db.header,
    ) in
    simp (opens, query_count_h, drained, mod-eq_of_lt small) refl
