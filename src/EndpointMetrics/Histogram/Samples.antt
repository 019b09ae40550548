-- ===== src/EndpointMetrics/Histogram/Samples.antt =====
-- Sequences of samples given to the histogram of serviceevents/utils/seh-histogram.ts.
use aws_otel_js_instrumentat.Prelude.{
  ℕ, List, [], ◌∷◌, map, length, if-cases, ◌≡◌, refl, sym, ◌∙◌, arith, sort_by, total,
  total-sort_by, sum, inl, inr, ◌⊎◌,
}
use aws_otel_js_instrumentat.EndpointMetrics.Histogram.{
  Number, BucketNum, bucket_test, Histogram, create, Recorded, thrown, done, finite, Invalid,
  validate_input, get_bucket, record_valid, record_value, record_unsafe, entry_leb, recover_value,
  get_values_and_counts, get_statistics, is_full, count_value, unsafe_bucket,
}
use aws_otel_js_instrumentat.EndpointMetrics.Histogram.Totals.{
  IsHistogram, entry_count, count_value-IsHistogram,
}

-- The histogram after a call, which a throw leaves as it was.
abbrev pub left_by : Histogram → Recorded → Histogram
left_by h (thrown e) = h
left_by h (done ok after) = after

create-IsHistogram : (max_buckets : ℕ) → IsHistogram (create max_buckets)
unfolding create
create-IsHistogram max_buckets = record {
  keys = tt;
  counts = refl;
  size = omega arith;
  low = omega arith;
  high = omega arith;
  no_minimum = λ _. refl;
  no_maximum = λ _. refl;
}

module _ (log_bucket : ℕ → ℕ) where
  record_valid-IsHistogram :
      (valid : Invalid ⊎ (ℕ × ℕ)) (h : Histogram)
      → IsHistogram h
      → IsHistogram (left_by h (record_valid log_bucket valid h))
  unfolding record_valid
  record_valid-IsHistogram (inl e) h i = i
  record_valid-IsHistogram (inr (value, weight)) h i =
      if-cases (λ r. IsHistogram (left_by h r)) (is_full (get_bucket log_bucket value) h) (λ _. i)
        λ room. count_value-IsHistogram (get_bucket log_bucket value) value weight h room i

  unfoldable pub record_all : List (Number × Number) → Histogram → Histogram
  record_all [] h = h
  record_all ((value, weight) ∷ later) h =
      record_all later (left_by h (record_value log_bucket value weight h))

  record_all_from :
      (samples : List (Number × Number)) (h : Histogram)
      → IsHistogram h
      → IsHistogram (record_all samples h)
  unfolding record_all record_value
  record_all_from [] h i = i
  record_all_from ((value, weight) ∷ later) h i =
      record_all_from later _ (record_valid-IsHistogram (validate_input value weight) h i)

  -- Any samples and weights, those that throw included, leave a new histogram with distinct buckets
  -- that are at most `max_buckets`, whose counts add up to the total count, and with a sum between
  -- the count times the minimum and the count times the maximum.
  pub record_all-IsHistogram :
      (samples : List (Number × Number)) (max_buckets : ℕ)
      → IsHistogram (record_all samples (create max_buckets))
  record_all-IsHistogram samples max_buckets =
      record_all_from samples (create max_buckets) (create-IsHistogram max_buckets)

  unsafe_bucket_lem : (value : ℕ) → get_bucket log_bucket value ≡ unsafe_bucket log_bucket value
  unfolding get_bucket unsafe_bucket
  unsafe_bucket_lem value = ground arith

  -- For every duration, recording without validation does what recording it with weight 1 does.
  pub record_unsafe-record_value :
      (value : ℕ) (h : Histogram)
      → record_value log_bucket (finite value) (finite 1) h
        ≡ done (record_unsafe log_bucket value h).0 (record_unsafe log_bucket value h).1
  unfolding record_value record_unsafe record_valid validate_input count_value
  record_unsafe-record_value value h = ground (arith, unsafe_bucket_lem value)

sum-entry_counts : (xs : List (BucketNum × ℕ)) → sum (map (λ e. e.1) xs) ≡ total entry_count xs
unfolding sum
sum-entry_counts [] = refl
sum-entry_counts (x ∷ xs) = omega (arith, sum-entry_counts xs)

length-map {ℓ κ} :
    {A : Type ℓ} {B : Type κ} (f : A → B) (xs : List A) → length (map f xs) ≡ length xs
length-map f [] = refl
length-map f (x ∷ xs) = omega (arith, length-map f xs)

-- After any samples, the exported counts add up to the count that the statistics report, and there
-- is one exported value for each count.
pub exported_counts :
    {V : Type 0} (zero_value : V) (magnitude : ℕ → V) (log_bucket : ℕ → ℕ)
    (samples : List (Number × Number)) (max_buckets : ℕ)
    → let h = record_all log_bucket samples (create max_buckets) in
      (sum (get_values_and_counts zero_value magnitude h).1 ≡ (get_statistics h).count)
      × (length (get_values_and_counts zero_value magnitude h).0
          ≡ length (get_values_and_counts zero_value magnitude h).1)
unfolding get_values_and_counts get_statistics
exported_counts zero_value magnitude log_bucket samples max_buckets =
    let h = record_all log_bucket samples (create max_buckets) in
    let sorted = sort_by entry_leb h.buckets in
    (
      sum-entry_counts sorted
          ∙ (total-sort_by entry_count entry_leb h.buckets
              ∙ (record_all-IsHistogram log_bucket samples max_buckets).counts),
      length-map (λ e. recover_value zero_value magnitude e.0) sorted
          ∙ sym (length-map (λ e. e.1) sorted),
    )
