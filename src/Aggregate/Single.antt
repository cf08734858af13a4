-- ===== src/Aggregate/Single.antt =====
-- tsdb_aggregate_h against the rows of a history.
use mathlib.Core.Path.{subst, sym}
use esp_tsdb.Prelude.{
  ℕ, zero, suc, ◌+◌, ◌^◌, ◌≤◌, ◌<◌, ◌≡◌, refl, arith, ◌∙◌, ap, true, false, Bool-cases, inl, inr,
  leb, if◌then◌else◌, Option, some, List, [], ◌∷◌, length, ℤ, signed16,
}
use esp_tsdb.Format.{u32}
use esp_tsdb.Handle.{Handle}
use esp_tsdb.Ring.{History, available}
use esp_tsdb.Query.{params_of, too_many}
use esp_tsdb.Query.Seek.{Series, available-le, oldest_number}
use esp_tsdb.Query.Window.{value_of, in_range, window}
use esp_tsdb.Query.Answers.{Enters, answers, length-window, query-answers}
use esp_tsdb.Aggregate.{AggType, new_acc, agg_loop, agg_finish, aggregate_h}
use esp_tsdb.Aggregate.Loop.{column}
use esp_tsdb.Aggregate.Summary.{IsSummary, IsNarrow, agg_finish-IsSummary}

-- Parameter `p` of the `n` rows from number `i` on, those in range only, in their order.
unfoldable pub readings : (start_time end_time num_params p : ℕ) → History → (i n : ℕ) → List ℤ
readings s e np p hist i zero = []
readings s e np p hist i (suc n) =
    let rest = readings s e np p hist (i + 1) n in
    if in_range s e (hist i).ts then signed16 (value_of np (hist i) p) ∷ rest else rest

module _ (s e np p : ℕ) (hist : History) where
  column-window :
      (i n : ℕ) (idx : ℕ → ℕ)
      → idx 0 ≡ p
      → column 0 (window s e np idx hist i n) ≡ readings s e np p hist i n
  unfolding column window readings
  column-window i zero idx at = refl
  column-window i (suc n) idx at = elim (Bool-cases (in_range s e (hist i).ts)) [
    | inr t ↦ rw t (column-window (i + 1) n idx at)
    | inl t ↦ rw t (
        ap (λ x. signed16 (value_of np (hist i) x) ∷ column 0 (window s e np idx hist (i + 1) n)) at
        ∙ ap (λ xs. signed16 (value_of np (hist i) p) ∷ xs) (column-window (i + 1) n idx at))
  ]

  window-IsNarrow :
      (total i n : ℕ) (idx : ℕ → ℕ)
      → i + n ≤ total
      → ((k q : ℕ) → k < total → (hist k).vals q < 2 ^ 16)
      → IsNarrow 0 (window s e np idx hist i n)
  unfolding window IsNarrow
  window-IsNarrow total i zero idx le narrow = tt
  window-IsNarrow total i (suc n) idx le narrow = elim (Bool-cases (in_range s e (hist i).ts)) [
    | inr t ↦ rw t (window-IsNarrow total (i + 1) n idx (omega arith) narrow)
    | inl t ↦ rw t (let lt = narrow i (idx 0) (omega arith) in ground (arith, lt))
  ]

-- tsdb_aggregate_h on a handle that holds a history gives what its type asks of the values that the
-- parameter has in the retained rows in the range. With no such row it stores 0. With rows, it
-- stores for SUM the sum cast to 32 bits, for AVG the sum divided toward 0 by their number, for MIN
-- and MAX one of the values that none is below or above, for COUNT their number, and for FIRST and
-- LAST the value of the first and of the last of them; a type that the enum does not name is
-- refused. This is under the conditions of a query, for a parameter that the handle has and rows of
-- 16-bit values.
pub aggregate_h-IsSummary :
    (seen : Handle) (got : Option Handle) (db : Handle) (hist : History)
    (start_time end_time param_index : ℕ) (agg_type : AggType)
    → Enters seen got db
    → Series db hist
    → db.extra_param_count ≡ 0
    → start_time ≤ end_time
    → param_index < seen.header.num_params + seen.extra_param_count
    → ((k p : ℕ) → k < db.header.total_records → (hist k).vals p < 2 ^ 16)
    → IsSummary agg_type
        (readings start_time end_time db.header.num_params param_index hist
          (oldest_number db.header)
          (available db.header))
        (aggregate_h seen got start_time end_time param_index agg_type true)
unfolding aggregate_h params_of
aggregate_h-IsSummary seen got db hist s e p ty en v none_extra le known narrow =
    let (q, opens, drained) =
      query-answers seen got db hist s e (some (λ i. p)) 1 en v none_extra le
        (unfold too_many in refl) in
    let k : leb (seen.header.num_params + seen.extra_param_count) p ≡ false = ground arith in
    let idx = (params_of db (some (λ i. p)) 1).0 in
    let c = v.counts in
    let small : length (answers db hist s e idx) < u32 = omega (
      arith,
      length-window s e db.header.num_params idx hist (oldest_number db.header)
          (available db.header),
      available-le db.header,
    ) in
    let run : aggregate_h seen got s e p ty true
        ≡ agg_finish ty (agg_loop (answers db hist s e idx) 0 0 new_acc) =
      simp (en.open_seen, k, aggregate_h, opens, drained) refl in
    let at : idx 0 ≡ p = ground arith in
    subst
      (λ r.
        IsSummary ty
          (readings s e db.header.num_params p hist (oldest_number db.header) (available db.header))
          r)
      (sym run)
      (subst
        (λ xs. IsSummary ty xs (agg_finish ty (agg_loop (answers db hist s e idx) 0 0 new_acc)))
        (column-window s e db.header.num_params p hist (oldest_number db.header)
          (available db.header) idx at)
        (agg_finish-IsSummary ty 0 (answers db hist s e idx)
          (window-IsNarrow s e db.header.num_params p hist db.header.total_records
            (oldest_number db.header) (available db.header) idx
            (omega (arith, available-le db.header)) narrow)
          small))
