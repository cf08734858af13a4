-- ===== src/Aggregate/Summary.antt =====
-- tsdb_aggregate_h against what each of its types is to give for a list of values.
use mathlib.Core.Path.{subst}
use esp_tsdb.Prelude.{
  ℕ, ◌+◌, ◌-◌, ◌<◌, ◌≡◌, ◌⊎◌, inl, inr, refl, arith, ◌∙◌, sym, ap, true, false, Bool-cases, leb,
  ltb, ◌==◌, Option, none, some, List, [], ◌∷◌, get_elem?, length, ℤ, pos, negsuc, pos_part,
  neg_part, ◌+ℤ◌, ◌≤ℤ◌, ltb_ℤ, signed16, to_int32, quotient,
}
use esp_tsdb.Format.{EspErr, esp_ok, err_invalid_arg, u32, add32}
use esp_tsdb.Write.{Values}
use esp_tsdb.Aggregate.{
  AggType, agg_sum, agg_avg, agg_min, agg_max, agg_count, agg_first, agg_last, agg_other, Acc,
  new_acc, accumulate, agg_loop, agg_value, agg_finish,
}
use esp_tsdb.Aggregate.Loop.{
  positives, negatives, total, IsValue, column, IsAfter, IsValue-later, all_values,
  agg_loop-IsAfter, sub_ℕ-cong, sub_ℕ-parts, last_lem, agg_loop_cons,
}

-- What a type of aggregation is to give for values that are not none.
unfoldable pub Summarizes : AggType → List ℤ → ℤ → Type 0
Summarizes agg_sum vs x = x ≡ to_int32 (total vs)
Summarizes agg_avg vs x = x ≡ to_int32 (quotient (total vs) (length vs))
Summarizes agg_min vs x = IsValue vs x × ((v : ℤ) → IsValue vs v → x ≤ℤ v)
Summarizes agg_max vs x = IsValue vs x × ((v : ℤ) → IsValue vs v → v ≤ℤ x)
Summarizes agg_count vs x = x ≡ to_int32 (pos (length vs))
Summarizes agg_first vs x = get_elem? vs 0 ≡ some x
Summarizes agg_last vs x = get_elem? vs (length vs - 1) ≡ some x
Summarizes agg_other vs x = ⊥

-- What tsdb_aggregate_h is to return and to store for the values.
unfoldable pub IsSummary : AggType → List ℤ → EspErr × Option ℤ → Type 0
IsSummary agg_type [] r = r ≡ (esp_ok, some (pos 0))
IsSummary agg_other (v ∷ vs) r = r ≡ (err_invalid_arg, none)
IsSummary agg_type (v ∷ vs) r = (x : ℤ) × (r ≡ (esp_ok, some x)) × Summarizes agg_type (v ∷ vs) x

-- The first value, which sets every accumulator.
first_lem :
    (n : ℕ)
    → n < 65536
    → (ltb_ℤ (signed16 n) (pos 2147483647) ≡ true) × (ltb_ℤ (negsuc 2147483647) (signed16 n) ≡ true)
unfolding signed16
first_lem n lt = elim (Bool-cases (ltb n 32768)) [
  | inl t ↦ rw t (ground arith, ground arith)
  | inr t ↦ let u : leb 65536 n ≡ false = ground arith in rw (t, u) (ground arith, ground arith)
]

abbrev one_seen : ℤ → Acc
one_seen v = record { sum = pos 0 +ℤ v; min_val = v; max_val = v; first_val = v; last_val = v }

accumulate-first : (n : ℕ) → n < 65536 → accumulate 0 (signed16 n) new_acc ≡ one_seen (signed16 n)
unfolding accumulate
accumulate-first n lt = let (a, b) = first_lem n lt in rw (a, b) refl

module _ (v : ℤ) (vs : List ℤ) (acc : Acc) (a : IsAfter vs (one_seen v) acc) where
  sum_lem : acc.sum ≡ total (v ∷ vs)
  unfolding positives negatives ◌+ℤ◌
  sum_lem =
      let e = sub_ℕ-parts (0 + pos_part v) (0 + neg_part v) in
      a.sum
      ∙ sub_ℕ-cong (pos_part (pos 0 +ℤ v) + positives vs) (neg_part (pos 0 +ℤ v) + negatives vs)
          (pos_part v + positives vs) (neg_part v + negatives vs) (omega (arith, e))

  extreme_is : (x : ℤ) → (x ≡ v) ⊎ IsValue vs x → IsValue (v ∷ vs) x
  extreme_is x (inl e) = (0, ap (λ y. some y) (sym e))
  extreme_is x (inr m) = IsValue-later v x vs m

  finish_lem :
      (ty : AggType) (count : ℕ)
      → count ≡ length (v ∷ vs)
      → IsSummary ty (v ∷ vs) (agg_finish ty (count, acc))
  unfolding agg_finish agg_value IsSummary Summarizes
  finish_lem ty count n = let t : (count == 0) ≡ false = ground (arith, n) in go ty t
    where
      go :
          (ty : AggType) → (count == 0) ≡ false → IsSummary ty (v ∷ vs) (agg_finish ty (count, acc))
      go agg_sum t = rw t (to_int32 acc.sum, refl, ap to_int32 sum_lem)
      go agg_avg t = rw t (to_int32 (quotient acc.sum count), refl, rw (sum_lem, n) refl)
      go agg_min t = rw t (
        acc.min_val,
        refl,
        (
          extreme_is acc.min_val a.min_is,
          all_values v vs (λ x. acc.min_val ≤ℤ x) a.min_le a.min_all,
        ),
      )
      go agg_max t = rw t (
        acc.max_val,
        refl,
        (
          extreme_is acc.max_val a.max_is,
          all_values v vs (λ x. x ≤ℤ acc.max_val) a.max_ge a.max_all,
        ),
      )
      go agg_count t = rw t (to_int32 (pos count), refl, ap (λ k. to_int32 (pos k)) n)
      go agg_first t = rw t (acc.first_val, refl, ap (λ x. some x) (sym a.first))
      go agg_last t = rw t (acc.last_val, refl, last_lem v acc.last_val vs a.last)
      go agg_other t = rw t refl

length-column : (i : ℕ) (records : List (ℕ × Values)) → length (column i records) ≡ length records
unfolding column
length-column i [] = refl
length-column i (r ∷ rest) = omega (arith, length-column i rest)

-- Every record's value at position `i` is one of 16 bits.
unfoldable pub IsNarrow : ℕ → List (ℕ × Values) → Type 0
IsNarrow i [] = Unit
IsNarrow i (r ∷ rest) = r.1 i < 65536

-- The loop and the switch of tsdb_aggregate_h, on the records of a query.
pub agg_finish-IsSummary :
    (ty : AggType) (i : ℕ) (records : List (ℕ × Values))
    → IsNarrow i records
    → length records < u32
    → IsSummary ty (column i records) (agg_finish ty (agg_loop records i 0 new_acc))
unfolding agg_loop column agg_finish IsSummary IsNarrow
agg_finish-IsSummary ty i [] narrow small = refl
agg_finish-IsSummary ty i (r ∷ rest) narrow small =
    let v = signed16 (r.1 i) in
    let c : add32 0 1 ≡ 1 = refl in
    let s = accumulate-first (r.1 i) narrow in
    let (n, a) = agg_loop-IsAfter rest i 1 (one_seen v) (omega arith) (omega (arith, small)) in
    subst (λ p. IsSummary ty (v ∷ column i rest) (agg_finish ty p))
      (sym (agg_loop_cons r rest i 0 1 new_acc (one_seen v) c s))
      (finish_lem v (column i rest) (agg_loop rest i 1 (one_seen v)).1 a ty
        (agg_loop rest i 1 (one_seen v)).0 (omega (arith, n, length-column i rest)))
