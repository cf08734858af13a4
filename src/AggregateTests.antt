-- ===== src/AggregateTests.antt =====
-- The aggregations at concrete records.
use esp_tsdb.Prelude.{
  ℕ, ◌≡◌, refl, true, arith, some, List, [], ◌∷◌, pos, negsuc, ◌+ℤ◌, signed16, signed32, to_int32,
  quotient,
}
use esp_tsdb.Format.{esp_ok}
use esp_tsdb.Write.{Values}
use esp_tsdb.Query.Seek.{oldest_number}
use esp_tsdb.Ring.{available}
use esp_tsdb.Aggregate.{
  agg_avg, agg_max, agg_min, new_acc, accumulate, agg_loop, agg_value, agg_finish, aggregate_h,
}
use esp_tsdb.Aggregate.Single.{readings, aggregate_h-IsSummary}
use esp_tsdb.Aggregate.Summary.{IsSummary}
use esp_tsdb.Samples.{sample_header, sample_db, sample_history, sample_Series, sample_Enters}

-- Over [15, 100].
aggregate_h-IsSummary_example :
    IsSummary agg_avg
      (readings 15 100 1 0 sample_history (oldest_number sample_header) (available sample_header))
      (aggregate_h sample_db (some sample_db) 15 100 0 agg_avg true)
aggregate_h-IsSummary_example =
    aggregate_h-IsSummary sample_db (some sample_db) sample_db sample_history 15 100 0 agg_avg
      sample_Enters sample_Series refl (omega arith) (omega arith) (λ k p lt. omega arith)

-- The values 7, -3 and -6, the last two as int16_t.
abbrev sample_records : List (ℕ × Values)
sample_records = (10, λ i. 7) ∷ (20, λ i. 65533) ∷ (30, λ i. 65530) ∷ []

-- The sum is -2, and C divides toward 0.
average_run : agg_finish agg_avg (agg_loop sample_records 0 0 new_acc) ≡ (esp_ok, some (pos 0))
unfolding agg_finish agg_loop agg_value accumulate signed16 signed32 to_int32 quotient ◌+ℤ◌
average_run = refl

minimum_run : agg_finish agg_min (agg_loop sample_records 0 0 new_acc) ≡ (esp_ok, some (negsuc 5))
unfolding agg_finish agg_loop agg_value accumulate signed16 ◌+ℤ◌
minimum_run = refl

maximum_run : agg_finish agg_max (agg_loop sample_records 0 0 new_acc) ≡ (esp_ok, some (pos 7))
unfolding agg_finish agg_loop agg_value accumulate signed16 ◌+ℤ◌
maximum_run = refl
