-- ===== src/EndpointMetrics/Export/Breakdown.antt =====
-- The error breakdown that serviceevents/collectors/endpoint-collector.ts emits of an operation, and
-- the metrics per exception type made of it (serviceevents/models/endpoint-telemetry.ts).
use mathlib.Core.List.{Perm}
use aws_otel_js_instrumentat.Prelude.{
  ℕ, ◌+◌, ◌*◌, ◌≤◌, Bool, true, false, Option, none, some, List, [], ◌∷◌, ◌++◌, String, length,
  take, drop, ◌||◌, ◌==◌, string_test, lookup, insert, has_key, IsMap, insert-IsMap, sort_by,
  sort_by-perm, sort_by-IsSortedBy, take-before-drop, take-append-drop, length-take, All, total,
  total-sort_by, total-append, ◌≡◌, refl, sym, ap, subst, ◌∙◌, arith,
}
use aws_otel_js_instrumentat.EndpointMetrics.Endpoints.{ErrorData, ErrorInfo}
use aws_otel_js_instrumentat.EndpointMetrics.Endpoints.Counters.{
  value_total, value_total-insert, breakdown_total,
}
use aws_otel_js_instrumentat.EndpointMetrics.Export.{
  ErrorBreakdownEntry, EndpointMetricEvent, EndpointErrorMetric, max_exception_metrics,
  failure_entries, error_breakdown_list, count_desc, truncated_breakdown, or_zero_count,
  add_details, by_exception, error_metrics, to_error_type_metrics,
}

abbrev pub entry_count : ErrorBreakdownEntry → ℕ
entry_count e = e.count

failure_entries-total :
    (k : String) (m : List (String × ErrorData))
    → total entry_count (failure_entries k m) ≡ value_total (λ (d : ErrorData). d.count) m
unfolding failure_entries value_total
failure_entries-total k [] = refl
failure_entries-total k ((j, d) ∷ m) = ground (arith, failure_entries-total k m)

error_breakdown_list-total :
    (m : List (String × List (String × ErrorData)))
    → total entry_count (error_breakdown_list m) ≡ breakdown_total m
unfolding error_breakdown_list value_total
error_breakdown_list-total [] = refl
error_breakdown_list-total ((k, f) ∷ m) = omega (
  arith,
  total-append entry_count (failure_entries k f) (error_breakdown_list m),
  failure_entries-total k f,
  error_breakdown_list-total m,
)

count_desc_total : (a b : ErrorBreakdownEntry) → count_desc a b ≡ false → count_desc b a ≡ true
count_desc_total a b h = ground arith

count_desc_trans :
    (a b c : ErrorBreakdownEntry)
    → count_desc a b ≡ true
    → count_desc b c ≡ true
    → count_desc a c ≡ true
count_desc_trans a b c h k = ground arith

-- The entries that the limit leaves out.
abbrev pub left_out : List (String × List (String × ErrorData)) → List ErrorBreakdownEntry
left_out m = drop max_exception_metrics (sort_by count_desc (error_breakdown_list m))

-- The emitted breakdown has at most five entries; with those left out it is the operation's whole
-- breakdown in another order, whose counts add up to the counted faults; and no entry that is left
-- out has a larger count than one that is emitted.
pub truncated_breakdown_lem :
    (m : List (String × List (String × ErrorData)))
    → (length (truncated_breakdown m) ≤ max_exception_metrics)
      × (Perm (truncated_breakdown m ++ left_out m) (error_breakdown_list m)
          × ((total entry_count (truncated_breakdown m) + total entry_count (left_out m)
                ≡ breakdown_total m)
              × All
                  (λ kept. All (λ left. count_desc kept left ≡ true) (left_out m))
                  (truncated_breakdown m)))
unfolding truncated_breakdown
truncated_breakdown_lem m =
    let sorted = sort_by count_desc (error_breakdown_list m) in
    (
      omega (arith, length-take max_exception_metrics sorted),
      (
        subst (λ (xs : List ErrorBreakdownEntry). Perm xs (error_breakdown_list m))
            (sym (take-append-drop max_exception_metrics sorted))
            (sort_by-perm count_desc (error_breakdown_list m)),
        (
          sym (
                total-append entry_count (take max_exception_metrics sorted)
                  (drop max_exception_metrics sorted))
              ∙ (ap (total entry_count) (take-append-drop max_exception_metrics sorted)
                  ∙ (total-sort_by entry_count count_desc (error_breakdown_list m)
                      ∙ error_breakdown_list-total m)),
          take-before-drop count_desc max_exception_metrics sorted (
              sort_by-IsSortedBy count_desc count_desc (λ a b h. h) count_desc_total
                count_desc_trans (error_breakdown_list m)),
        ),
      ),
    )

abbrev pub metric_count : EndpointErrorMetric → ℕ
metric_count x = x.count

-- An entry counts once for each error that it lists.
abbrev pub details_count : ErrorBreakdownEntry → ℕ
details_count e = length e.errors * e.count

abbrev identity : ℕ → ℕ
identity n = n

or_zero_count_lem : (o : Option ℕ) → or_zero_count o ≡ (elim o [ none ↦ 0 | some n ↦ identity n ])
unfolding or_zero_count
or_zero_count_lem none = refl
or_zero_count_lem (some n) = refl

add_details-total :
    (is : List ErrorInfo) (count : ℕ) (m : List (String × ℕ))
    → value_total identity (add_details is count m) ≡ value_total identity m + length is * count
unfolding add_details
add_details-total [] count m = omega arith
add_details-total (i ∷ is) count m = omega (
  arith,
  add_details-total is count
      (insert i.error_type (or_zero_count (lookup i.error_type m) + count) m),
  or_zero_count_lem (lookup i.error_type m),
  value_total-insert identity i.error_type (or_zero_count (lookup i.error_type m) + count) m,
)

by_exception-total :
    (es : List ErrorBreakdownEntry) (m : List (String × ℕ))
    → value_total identity (by_exception es m) ≡ value_total identity m + total details_count es
unfolding by_exception
by_exception-total [] m = omega arith
by_exception-total (e ∷ es) m = omega (
  arith,
  by_exception-total es (add_details e.errors e.count m),
  add_details-total e.errors e.count m,
)

add_details-IsMap :
    (is : List ErrorInfo) (count : ℕ) (m : List (String × ℕ))
    → IsMap m
    → IsMap (add_details is count m)
unfolding add_details
add_details-IsMap [] count m h = h
add_details-IsMap (i ∷ is) count m h =
    add_details-IsMap is count _ (insert-IsMap i.error_type _ m h)

by_exception-IsMap :
    (es : List ErrorBreakdownEntry) (m : List (String × ℕ)) → IsMap m → IsMap (by_exception es m)
unfolding by_exception
by_exception-IsMap [] m h = h
by_exception-IsMap (e ∷ es) m h = by_exception-IsMap es _ (add_details-IsMap e.errors e.count m h)

-- Whether a metric is of the exception.
abbrev pub has_exception : String → List EndpointErrorMetric → Bool
has_exception x [] = false
has_exception x (m ∷ ms) = m.exception == x || has_exception x ms

-- Each exception at most once.
abbrev pub IsPerException : List EndpointErrorMetric → Type 0
IsPerException [] = Unit {0}
IsPerException (m ∷ ms) = (has_exception m.exception ms ≡ false) × IsPerException ms

has_exception-error_metrics :
    (operation x : String) (m : List (String × ℕ))
    → has_exception x (error_metrics operation m) ≡ has_key x m
unfolding error_metrics has_key
has_exception-error_metrics operation x [] = refl
has_exception-error_metrics operation x ((k, n) ∷ m) =
    ground (arith, has_exception-error_metrics operation x m)

error_metrics-IsPerException :
    (operation : String) (m : List (String × ℕ))
    → IsMap m
    → IsPerException (error_metrics operation m)
unfolding error_metrics
error_metrics-IsPerException operation [] h = tt
error_metrics-IsPerException operation ((k, n) ∷ m) h =
    (has_exception-error_metrics operation k m ∙ h.0, error_metrics-IsPerException operation m h.1)

error_metrics-total :
    (operation : String) (m : List (String × ℕ))
    → total metric_count (error_metrics operation m) ≡ value_total identity m
unfolding error_metrics value_total
error_metrics-total operation [] = refl
error_metrics-total operation ((k, n) ∷ m) = omega (arith, error_metrics-total operation m)

-- Of one event, the error metrics name each exception type once, and their counts add up to the
-- counts of the event's breakdown.
pub to_error_type_metrics_lem :
    {V : Type 0} (e : EndpointMetricEvent V)
    → IsPerException (to_error_type_metrics e)
      × (total metric_count (to_error_type_metrics e) ≡ total details_count e.error_breakdown)
unfolding to_error_type_metrics value_total
to_error_type_metrics_lem e = (
  error_metrics-IsPerException e.operation _ (by_exception-IsMap e.error_breakdown [] tt),
  omega (
    arith,
    error_metrics-total e.operation (by_exception e.error_breakdown []),
    by_exception-total e.error_breakdown [],
  ),
)
