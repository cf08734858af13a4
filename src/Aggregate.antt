-- ===== src/Aggregate.antt =====
-- The aggregations of src/tsdb_query.c.
pub mod Single
pub mod Loop
pub mod Summary
use esp_tsdb.Prelude.{
  ℕ, zero, suc, ◌+◌, ◌-◌, ◌*◌, ◌≤◌, ◌<◌, ◌≡◌, Bool, true, false, not, ◌||◌, ltb, leb, ◌==◌,
  if◌then◌else◌, Option, none, some, List, [], ◌∷◌, ◌++◌, length, get_elem?, ℤ, pos, negsuc, ◌+ℤ◌,
  ltb_ℤ, signed16, to_int32, quotient,
}
use esp_tsdb.Format.{EspErr, esp_ok, esp_fail, err_invalid_arg, err_invalid_state, add32}
use esp_tsdb.Handle.{Handle}
use esp_tsdb.Write.{Values}
use esp_tsdb.Query.{Init, opened, rejected, query_init_h, drain_all}

-- tsdb_agg_type_t; `agg_other` is a number that the enum does not name.
pub data AggType : Type 0 where
  agg_sum agg_avg agg_min agg_max agg_count agg_first agg_last agg_other : AggType

-- The accumulators. The sum of fewer than 2 ^ 32 int16_t fits its int64_t.
pub record Acc : Type 0 where
  pub sum : ℤ
  pub min_val : ℤ
  pub max_val : ℤ
  pub first_val : ℤ
  pub last_val : ℤ

-- INT32_MAX and INT32_MIN are before the first value.
abbrev pub new_acc : Acc
new_acc = record {
  sum = pos 0;
  min_val = pos 2147483647;
  max_val = negsuc 2147483647;
  first_val = pos 0;
  last_val = pos 0;
}

-- One value, when `count` values came before it.
unfoldable pub accumulate : (count : ℕ) → ℤ → Acc → Acc
accumulate count value acc = record {
  sum = acc.sum +ℤ value;
  min_val = if ltb_ℤ value acc.min_val then value else acc.min_val;
  max_val = if ltb_ℤ acc.max_val value then value else acc.max_val;
  first_val = if count == 0 then value else acc.first_val;
  last_val = value;
}

-- The single-pass loop over what the query gives, for position `i` of the values.
unfoldable pub agg_loop : List (ℕ × Values) → (i count : ℕ) → Acc → ℕ × Acc
agg_loop [] i count acc = (count, acc)
agg_loop (r ∷ rest) i count acc =
    agg_loop rest i (add32 count 1) (accumulate count (signed16 (r.1 i)) acc)

-- The switch over the type. `none` is the default case.
unfoldable pub agg_value : AggType → (count : ℕ) → Acc → Option ℤ
agg_value agg_sum count acc = some (to_int32 acc.sum)
agg_value agg_avg count acc = some (to_int32 (quotient acc.sum count))
agg_value agg_min count acc = some acc.min_val
agg_value agg_max count acc = some acc.max_val
agg_value agg_count count acc = some (to_int32 (pos count))
agg_value agg_first count acc = some acc.first_val
agg_value agg_last count acc = some acc.last_val
agg_value agg_other count acc = none

-- After the loop: the status, and what is stored in *result, if anything.
unfoldable pub agg_finish : AggType → ℕ × Acc → EspErr × Option ℤ
agg_finish agg_type (count, acc) =
    if count == 0 then (esp_ok, some (pos 0)) else elim (agg_value agg_type count acc) [
      | none ↦ (err_invalid_arg, none)
      | some value ↦ (esp_ok, some value)
    ]

-- tsdb_aggregate_h, for pointers that are not NULL.
unfoldable pub aggregate_h :
    (seen : Handle) (got : Option Handle) (start_time end_time param_index : ℕ)
    → AggType
    → (malloc_ok : Bool) → EspErr × Option ℤ
aggregate_h seen got start_time end_time param_index agg_type malloc_ok =
    if not seen.is_open
    then (err_invalid_state, none)
    else if leb (seen.header.num_params + seen.extra_param_count) param_index
    then (err_invalid_arg, none)
    else elim (query_init_h seen got start_time end_time (some (λ i. param_index)) 1 malloc_ok) [
      | rejected e db ↦ (e, none)
      | opened db q ↦ elim (drain_all db q) [
        | none ↦ (esp_fail, none)
        | some records ↦ agg_finish agg_type (agg_loop records 0 0 new_acc)
      ]
    ]

-- One element of `requests`: its param_index and agg_type.
pub record Request : Type 0 where
  pub param_index : ℕ
  pub agg_type : AggType

-- The position of a parameter in unique_params.
unfoldable pub position : ℕ → List ℕ → Option ℕ
position p [] = none
position p (x ∷ xs) =
    let rest = position p xs in
    if x == p then some 0 else elim rest [ none ↦ none | some j ↦ some (j + 1) ]

-- The parameters that the requests need, each once. `none` is an index out of range.
unfoldable pub unique_params : (total : ℕ) → List Request → List ℕ → Option (List ℕ)
unique_params total [] seen = some seen
unique_params total (r ∷ rs) seen =
    if leb total r.param_index then none else elim (position r.param_index seen) [
      | some j ↦ unique_params total rs seen
      | none ↦ unique_params total rs (seen ++ (r.param_index ∷ []))
    ]

-- The accumulator of each request, with the position of its parameter.
abbrev pub Accs : Type 0
Accs = List (ℕ × Acc)

unfoldable pub start_accs : List Request → List ℕ → Accs
start_accs [] params = []
start_accs (r ∷ rs) params =
    (elim (position r.param_index params) [ none ↦ 0 | some j ↦ j ], new_acc) ∷ start_accs rs params

-- One record: every accumulator takes its value.
unfoldable pub accumulate_all : (count : ℕ) → Values → Accs → Accs
accumulate_all count values [] = []
accumulate_all count values (a ∷ accs) =
    (a.0, accumulate count (signed16 (values a.0)) a.1) ∷ accumulate_all count values accs

-- The single pass.
unfoldable pub multi_loop : List (ℕ × Values) → (count : ℕ) → Accs → ℕ × Accs
multi_loop [] count accs = (count, accs)
multi_loop (r ∷ rest) count accs = multi_loop rest (add32 count 1) (accumulate_all count r.1 accs)

-- The results; a type that is not known gives 0.
unfoldable pub multi_results : (count : ℕ) → List Request → Accs → List ℤ
multi_results count (r ∷ rs) (a ∷ accs) =
    (if count == 0
      then pos 0
      else elim (agg_value r.agg_type count a.1) [ none ↦ pos 0 | some value ↦ value ])
    ∷ multi_results count rs accs
multi_results count [] accs = []
multi_results count (r ∷ rs) [] = []

-- tsdb_aggregate_multi_h, for at most 64 requests: the status, the results in their order and
-- *record_count.
unfoldable pub aggregate_multi_h :
    (seen : Handle) (got : Option Handle) (start_time end_time : ℕ)
    → List Request
    → (malloc_ok : Bool) → EspErr × List ℤ × ℕ
aggregate_multi_h seen got start_time end_time [] malloc_ok = (err_invalid_state, [], 0)
aggregate_multi_h seen got start_time end_time (r ∷ rs) malloc_ok =
    let requests = r ∷ rs in
    if not seen.is_open
    then (err_invalid_state, [], 0)
    else elim (unique_params (seen.header.num_params + seen.extra_param_count) requests []) [
      | none ↦ (err_invalid_arg, [], 0)
      | some params ↦
          elim (query_init_h seen got start_time end_time
            (some (λ i. elim (get_elem? params i) [ none ↦ 0 | some p ↦ p ])) (length params)
            malloc_ok) [
              | rejected e db ↦ (e, [], 0)
              | opened db q ↦ elim (drain_all db q) [
                | none ↦ (esp_fail, [], 0)
                | some records ↦
                    let (count, accs) = multi_loop records 0 (start_accs requests params) in
                    (esp_ok, multi_results count requests accs, count)
              ]
            ]
    ]
