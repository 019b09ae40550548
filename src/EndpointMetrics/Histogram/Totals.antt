-- ===== src/EndpointMetrics/Histogram/Totals.antt =====
-- What the histogram of serviceevents/utils/seh-histogram.ts keeps of its samples.
use native.Mathlib.Nat.{mul-le-mul_left}
use aws_otel_js_instrumentat.Prelude.{
  ℕ, ◌+◌, ◌*◌, ◌≤◌, false, Option, none, some, List, [], ◌∷◌, length, ◌≡◌, ◌≢◌, refl, arith, lookup,
  insert, IsMap, insert-IsMap, length-insert, total, sum,
}
use aws_otel_js_instrumentat.EndpointMetrics.Histogram.{
  BucketNum, bucket_test, Histogram, is_full, count_value, or_zero, lower, raise,
}

abbrev pub entry_count : BucketNum × ℕ → ℕ
entry_count (b, n) = n

total-insert :
    (b : BucketNum) (n : ℕ) (m : List (BucketNum × ℕ))
    → total entry_count (insert b (or_zero (lookup b m) + n) m) ≡ total entry_count m + n
unfolding insert lookup
total-insert b n [] = ground arith
total-insert b n ((c, k) ∷ m) = ground (arith, total-insert b n m)

scaled_below : (a m v c w s : ℕ) → a ≤ m → a ≤ v → m * c ≤ s → a * (c + w) ≤ s + v * w
scaled_below a m v c w s am av h = omega (arith, h, mul-le-mul_left c am, mul-le-mul_left w av)

scaled_above : (a m v c w s : ℕ) → m ≤ a → v ≤ a → s ≤ m * c → s + v * w ≤ a * (c + w)
scaled_above a m v c w s am av h = omega (arith, h, mul-le-mul_left c am, mul-le-mul_left w av)

lower-bound :
    (lo : Option ℕ) (value weight count sum : ℕ)
    → or_zero lo * count ≤ sum
    → (lo ≡ none → count ≡ 0)
    → or_zero (lower lo value) * (count + weight) ≤ sum + value * weight
lower-bound none value weight count sum h z = ground (arith, z refl)
lower-bound (some m) value weight count sum h z =
    scaled_below (or_zero (lower (some m) value)) m value count weight sum (ground arith)
      (ground arith) h

raise-bound :
    (hi : Option ℕ) (value weight count sum : ℕ)
    → sum ≤ or_zero hi * count
    → (hi ≡ none → count ≡ 0)
    → sum + value * weight ≤ or_zero (raise hi value) * (count + weight)
raise-bound none value weight count sum h z = ground (arith, z refl)
raise-bound (some m) value weight count sum h z =
    scaled_above (or_zero (raise (some m) value)) m value count weight sum (ground arith)
      (ground arith) h

-- The buckets are a map, account for the whole count, and are no more than allowed; the sum lies
-- between the count times the minimum and the count times the maximum.
pub record IsHistogram (h : Histogram) : Type 0 where
  pub keys : IsMap h.buckets
  pub counts : total entry_count h.buckets ≡ h.count
  pub size : length h.buckets ≤ h.max_buckets
  pub low : or_zero h.minimum * h.count ≤ h.sum
  pub high : h.sum ≤ or_zero h.maximum * h.count
  pub no_minimum : h.minimum ≡ none → h.count ≡ 0
  pub no_maximum : h.maximum ≡ none → h.count ≡ 0

lower-none : (lo : Option ℕ) (value : ℕ) → lower lo value ≢ none
lower-none none value e = ground (arith, e)
lower-none (some m) value e = ground (arith, e)

raise-none : (hi : Option ℕ) (value : ℕ) → raise hi value ≢ none
raise-none none value e = ground (arith, e)
raise-none (some m) value e = ground (arith, e)

pub count_value-IsHistogram :
    (b : BucketNum) (value weight : ℕ) (h : Histogram)
    → is_full b h ≡ false
    → IsHistogram h
    → IsHistogram (count_value b value weight h)
unfolding is_full count_value
count_value-IsHistogram b value weight h room i = record {
  keys = insert-IsMap b (or_zero (lookup b h.buckets) + weight) h.buckets i.keys;
  counts = ground (arith, i.counts, total-insert b weight h.buckets);
  size = ground (arith, i.size, length-insert b (or_zero (lookup b h.buckets) + weight) h.buckets);
  low = lower-bound h.minimum value weight h.count h.sum i.low i.no_minimum;
  high = raise-bound h.maximum value weight h.count h.sum i.high i.no_maximum;
  no_minimum = λ e. elim (lower-none h.minimum value e) [ ];
  no_maximum = λ e. elim (raise-none h.maximum value e) [ ];
}
