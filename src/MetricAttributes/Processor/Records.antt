-- ===== src/MetricAttributes/Processor/Records.antt =====
-- What an ended span adds to the histograms.
use aws_otel_js_instrumentat.Prelude.{
  ℕ, Bool, false, not, ◌&&◌, ◌||◌, Option, none, some, List, [], ◌∷◌, map, leb, ◌+◌, ◌≤◌, ◌≡◌,
  if◌then◌else◌,
}
use aws_otel_js_instrumentat.Spans.Model.{Attributes}
use aws_otel_js_instrumentat.MetricAttributes.Processor.{Histogram, Instruments}

abbrev is_between : ℕ → ℕ → Option ℕ → Bool
is_between least greatest none = false
is_between least greatest (some code) = leb least code && leb code greatest

-- A client's error is a code from 400 to 499.
abbrev pub is_error : Option ℕ → Bool
is_error code = is_between 400 499 code

-- A fault is a code from 500 to 599, or a failed span that has no client's error.
abbrev pub is_fault : Bool → Option ℕ → Bool
is_fault has_error code = is_between 500 599 code || has_error && not (is_error code)

abbrev pub one_if : Bool → ℕ
one_if b = if b then 1 else 0

-- The attributes that a histogram has records of.
abbrev attributes_of : Histogram → List Attributes
attributes_of h = map (λ (r : ℕ × Attributes). r.1) h

-- No record counts both an error and a fault.
abbrev pub Exclusive : Histogram → Histogram → Type 0
Exclusive [] [] = Unit
Exclusive ((e, a) ∷ errors) ((f, b) ∷ faults) = (e + f ≤ 1) × Exclusive errors faults
Exclusive [] (f ∷ faults) = ⊥
Exclusive (e ∷ errors) [] = ⊥

-- The histograms belong together: they have records of the same attributes.
pub record IsConsistent (i : Instruments) : Type 0 where
  pub faults : attributes_of i.fault_histogram ≡ attributes_of i.error_histogram
  pub latencies : attributes_of i.latency_histogram ≡ attributes_of i.error_histogram
  pub exclusive : Exclusive i.error_histogram i.fault_histogram
