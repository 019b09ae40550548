-- ===== src/EndpointMetrics/Histogram.antt =====
-- serviceevents/utils/seh-histogram.ts: the sparse exponential histogram. Values and weights are
-- not negative; a finite one is a whole number. The logarithm, whose rounding the language leaves
-- to the engine, is a parameter: `log_bucket v` is `Math.floor(Math.log(v) * BUCKET_FACTOR_INV)`.
pub mod Totals
pub mod Samples
use aws_otel_js_instrumentat.Prelude.{
  ℕ, zero, suc, ◌+◌, ◌*◌, Bool, true, false, ◌&&◌, not, Option, none, some, List, [], ◌∷◌, map,
  length, ltb, leb, nat_beq, nat_beq_iff, if◌then◌else◌, Testable, ◌==◌, ◌≡◌, ◌↔◌, ◌⊎◌, inl, inr,
  arith, lookup, insert, has_key, sort_by, ap,
}

-- A JavaScript number, as far as it is not negative.
pub data Number : Type 0 where
  finite : ℕ → Number
  infinite not_a_number : Number

pub data BucketNum : Type 0 where
  for_zero : BucketNum
  exponent : ℕ → BucketNum

abbrev pub bucket_beq : BucketNum → BucketNum → Bool
bucket_beq for_zero for_zero = true
bucket_beq for_zero (exponent n) = false
bucket_beq (exponent m) for_zero = false
bucket_beq (exponent m) (exponent n) = nat_beq m n

pub bucket_beq_iff : (a b : BucketNum) → (bucket_beq a b ≡ true) ↔ (a ≡ b)
bucket_beq_iff for_zero for_zero = ground arith
bucket_beq_iff for_zero (exponent n) = ground arith
bucket_beq_iff (exponent m) for_zero = ground arith
bucket_beq_iff (exponent m) (exponent n) = ground (arith, nat_beq_iff m n)

instance abbrev pub bucket_test : Testable BucketNum
bucket_test = record { same = bucket_beq; same_iff = bucket_beq_iff }

pub record Histogram : Type 0 where
  pub max_buckets : ℕ
  pub buckets : List (BucketNum × ℕ)
  pub minimum : Option ℕ
  pub maximum : Option ℕ
  pub sum : ℕ
  pub count : ℕ

unfoldable pub create : ℕ → Histogram
create max_buckets = record {
  max_buckets = max_buckets;
  buckets = [];
  minimum = none;
  maximum = none;
  sum = 0;
  count = 0;
}

pub data Invalid : Type 0 where
  value_nan weight_nan value_infinite weight_infinite weight_not_positive : Invalid

-- What `record` throws, or whether it recorded the value.
pub data Recorded : Type 0 where
  thrown : Invalid → Recorded
  done : Bool → Histogram → Recorded

unfoldable pub validate_input : Number → Number → Invalid ⊎ (ℕ × ℕ)
validate_input not_a_number weight = inl value_nan
validate_input (finite value) not_a_number = inl weight_nan
validate_input infinite not_a_number = inl weight_nan
validate_input infinite (finite weight) = inl value_infinite
validate_input infinite infinite = inl value_infinite
validate_input (finite value) infinite = inl weight_infinite
validate_input (finite value) (finite weight) =
    if leb weight 0 then inl weight_not_positive else inr (value, weight)

abbrev lower : Option ℕ → ℕ → Option ℕ
lower none value = some value
lower (some m) value = if ltb value m then some value else some m

abbrev raise : Option ℕ → ℕ → Option ℕ
raise none value = some value
raise (some m) value = if ltb m value then some value else some m

abbrev or_zero : Option ℕ → ℕ
or_zero none = 0
or_zero (some n) = n

pub is_full : BucketNum → Histogram → Bool
is_full b h = not (has_key b h.buckets) && leb h.max_buckets (length h.buckets)

-- The update that both ways of recording share, with a weight.
pub count_value : BucketNum → ℕ → ℕ → Histogram → Histogram
count_value b value weight h = record h {
  count = h.count + weight;
  sum = h.sum + value * weight;
  minimum = lower h.minimum value;
  maximum = raise h.maximum value;
  buckets = insert b (or_zero (lookup b h.buckets) + weight) h.buckets;
}

module _ (log_bucket : ℕ → ℕ) where
  unfoldable pub get_bucket : ℕ → BucketNum
  get_bucket value = if nat_beq value 0 then for_zero else exponent (log_bucket value)

  record_valid : Invalid ⊎ (ℕ × ℕ) → Histogram → Recorded
  unfolding is_full count_value
  record_valid (inl e) h = thrown e
  record_valid (inr (value, weight)) h =
      if is_full (get_bucket value) h
      then done false h
      else done true (count_value (get_bucket value) value weight h)

  unfoldable pub record_value : Number → Number → Histogram → Recorded
  unfolding record_valid
  record_value value weight h = record_valid (validate_input value weight) h

  unsafe_bucket : ℕ → BucketNum
  unsafe_bucket value = if ltb 0 value then exponent (log_bucket value) else for_zero

  unfoldable pub record_unsafe : ℕ → Histogram → Bool × Histogram
  unfolding is_full unsafe_bucket
  record_unsafe value h = if is_full (unsafe_bucket value) h then (false, h) else (
    true,
    record h {
      count = h.count + 1;
      sum = h.sum + value;
      minimum = lower h.minimum value;
      maximum = raise h.maximum value;
      buckets =
          insert (unsafe_bucket value) (or_zero (lookup (unsafe_bucket value) h.buckets) + 1)
            h.buckets;
    },
  )

unfoldable pub is_empty_histogram : Histogram → Bool
is_empty_histogram h = nat_beq h.count 0

abbrev pub bucket_leb : BucketNum → BucketNum → Bool
bucket_leb for_zero b = true
bucket_leb (exponent m) for_zero = false
bucket_leb (exponent m) (exponent n) = leb m n

abbrev pub entry_leb : BucketNum × ℕ → BucketNum × ℕ → Bool
entry_leb (a, m) (b, n) = bucket_leb a b

-- The exponential, too, is a parameter: `magnitude n` is `Math.exp((n + 0.5) * BUCKET_FACTOR)`.
module _ {V : Type 0} (zero_value : V) (magnitude : ℕ → V) where
  unfoldable pub recover_value : BucketNum → V
  recover_value for_zero = zero_value
  recover_value (exponent n) = magnitude n

  unfoldable pub get_values_and_counts : Histogram → List V × List ℕ
  get_values_and_counts h =
      let sorted = sort_by entry_leb h.buckets in
      (map (λ e. recover_value e.0) sorted, map (λ e. e.1) sorted)

pub record Statistics : Type 0 where
  pub min : ℕ
  pub max : ℕ
  pub sum : ℕ
  pub count : ℕ

unfoldable pub get_statistics : Histogram → Statistics
get_statistics h = record {
  min = or_zero h.minimum;
  max = or_zero h.maximum;
  sum = h.sum;
  count = h.count;
}
