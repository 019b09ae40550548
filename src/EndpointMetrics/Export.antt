-- ===== src/EndpointMetrics/Export.antt =====
-- serviceevents/collectors/endpoint-collector.ts, `collect` and `formatEndpointMetrics`, and
-- `toErrorTypeMetrics` of serviceevents/models/endpoint-telemetry.ts. A duration in microseconds is
-- a floating-point number, of a type `V` that is a parameter with its conversions.
pub mod Breakdown
use aws_otel_js_instrumentat.Prelude.{
  ℕ, zero, suc, ◌+◌, Bool, true, false, Option, none, some, List, [], ◌∷◌, ◌++◌, String, map,
  length, take, concat, ltb, leb, nat_beq, is_empty, if◌then◌else◌, Testable, ◌==◌, string_test,
  lookup, insert, sort_by,
}
use aws_otel_js_instrumentat.EndpointMetrics.Histogram.{
  Histogram, is_empty_histogram, get_values_and_counts, get_statistics,
}
use aws_otel_js_instrumentat.EndpointMetrics.Endpoints.{
  ErrorData, ErrorInfo, EndpointAggregation, Aggregations,
}

pub record ErrorBreakdownEntry : Type 0 where
  pub errors : List ErrorInfo
  pub count : ℕ
  pub failure_type : String

pub record DurationMetrics (V : Type 0) : Type 0 where
  pub values : List V
  pub counts : List ℕ
  pub max : V
  pub min : V
  pub count : ℕ
  pub sum : V

pub record EndpointMetricEvent (V : Type 0) : Type 0 where
  pub operation : String
  pub method : String
  pub route : String
  pub count : ℕ
  pub faults : ℕ
  pub errors : ℕ
  pub error_breakdown : List ErrorBreakdownEntry
  pub incident_count : ℕ
  pub incidents_exemplar : List ℕ
  pub duration : DurationMetrics V

pub record EndpointErrorMetric : Type 0 where
  pub operation : String
  pub exception : String
  pub count : ℕ

abbrev pub max_exception_metrics : ℕ
max_exception_metrics = 5

pub failure_entries : String → List (String × ErrorData) → List ErrorBreakdownEntry
failure_entries failure_type [] = []
failure_entries failure_type ((key, d) ∷ m) =
    let rest = failure_entries failure_type m in
    if ltb 0 d.count
    then record {
      errors = record { error_type = d.error_type; function_name = d.function_name } ∷ [];
      count = d.count;
      failure_type = failure_type;
    }
      ∷ rest
    else rest

unfoldable pub error_breakdown_list :
    List (String × List (String × ErrorData)) → List ErrorBreakdownEntry
unfolding failure_entries
error_breakdown_list [] = []
error_breakdown_list ((failure_type, m) ∷ ms) =
    failure_entries failure_type m ++ error_breakdown_list ms

-- `(a, b) => b.count - a.count`
abbrev pub count_desc : ErrorBreakdownEntry → ErrorBreakdownEntry → Bool
count_desc a b = leb b.count a.count

unfoldable pub truncated_breakdown :
    List (String × List (String × ErrorData)) → List ErrorBreakdownEntry
truncated_breakdown m = take max_exception_metrics (sort_by count_desc (error_breakdown_list m))

-- `zero_value`, `magnitude` and `of_nanoseconds` give floating-point numbers; `per_thousand x` is
-- `x / 1000.0`.
module _ {V : Type 0} (zero_value : V) (magnitude of_nanoseconds : ℕ → V)
    (per_thousand : V → V) where
  unfoldable pub convert_to_emf_histogram : Histogram → ℕ → ℕ → DurationMetrics V
  convert_to_emf_histogram h sum_duration count =
      if is_empty_histogram h
      then record {
        values = [];
        counts = [];
        max = zero_value;
        min = zero_value;
        count = 0;
        sum = zero_value;
      }
      else record {
        values = map per_thousand (get_values_and_counts zero_value magnitude h).0;
        counts = (get_values_and_counts zero_value magnitude h).1;
        max = per_thousand (of_nanoseconds (get_statistics h).max);
        min = per_thousand (of_nanoseconds (get_statistics h).min);
        count = count;
        sum = per_thousand (of_nanoseconds sum_duration);
      }

  event_of : String → EndpointAggregation → EndpointMetricEvent V
  event_of operation a = record {
    operation = operation;
    method = a.method;
    route = a.route;
    count = a.count;
    faults = a.faults;
    errors = a.errors;
    error_breakdown = truncated_breakdown a.error_breakdown;
    incident_count = length a.incidents_exemplar;
    incidents_exemplar = a.incidents_exemplar;
    duration = convert_to_emf_histogram a.seh_histogram a.sum_duration a.count;
  }

  unfoldable pub format_endpoint_metrics : Aggregations → List (EndpointMetricEvent V)
  unfolding event_of
  format_endpoint_metrics [] = []
  format_endpoint_metrics ((operation, a) ∷ m) =
      let rest = format_endpoint_metrics m in
      if nat_beq a.count 0 then rest else event_of operation a ∷ rest

or_zero_count : Option ℕ → ℕ
or_zero_count none = 0
or_zero_count (some n) = n

add_details : List ErrorInfo → ℕ → List (String × ℕ) → List (String × ℕ)
unfolding or_zero_count
add_details [] count m = m
add_details (i ∷ is) count m =
    add_details is count (insert i.error_type (or_zero_count (lookup i.error_type m) + count) m)

by_exception : List ErrorBreakdownEntry → List (String × ℕ) → List (String × ℕ)
unfolding add_details
by_exception [] m = m
by_exception (e ∷ es) m = by_exception es (add_details e.errors e.count m)

error_metrics : String → List (String × ℕ) → List EndpointErrorMetric
error_metrics operation [] = []
error_metrics operation ((exception, count) ∷ m) =
    record { operation = operation; exception = exception; count = count }
    ∷ error_metrics operation m

unfoldable pub to_error_type_metrics :
    {V : Type 0} → EndpointMetricEvent V → List EndpointErrorMetric
unfolding by_exception error_metrics
to_error_type_metrics e = error_metrics e.operation (by_exception e.error_breakdown [])

-- What the emitter is given, in order.
pub data Emitted (V : Type 0) : Type 0 where
  endpoint_summary : EndpointMetricEvent V → Emitted V
  endpoint_error_metric : EndpointErrorMetric → Emitted V

emit_event : {V : Type 0} → Bool → EndpointMetricEvent V → List (Emitted V)
emit_event suppress_endpoint_summary e =
    (if suppress_endpoint_summary then [] else endpoint_summary e ∷ [])
    ++ map endpoint_error_metric (to_error_type_metrics e)

emit_events : {V : Type 0} → Bool → List (EndpointMetricEvent V) → List (Emitted V)
unfolding emit_event
emit_events suppress [] = []
emit_events suppress (e ∷ es) = emit_event suppress e ++ emit_events suppress es

unfoldable pub collect :
    {V : Type 0} (zero_value : V) (magnitude of_nanoseconds : ℕ → V) (per_thousand : V → V)
    (has_emitter suppress_endpoint_summary : Bool)
    → Aggregations
    → List (Emitted V) × Aggregations
unfolding emit_events
collect zero_value magnitude of_nanoseconds per_thousand has_emitter suppress m = (
  if has_emitter
      then emit_events suppress
          (format_endpoint_metrics zero_value magnitude of_nanoseconds per_thousand m)
      else [],
  [],
)
