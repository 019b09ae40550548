-- ===== src/EndpointMetrics/Endpoints.antt =====
-- serviceevents/collectors/endpoint-collector.ts: the counters of each operation and what a
-- collection emits of them. Durations are whole nanoseconds. Versions, process ids and resource
-- attributes, which the collector copies into every event, are left out.
pub mod Counters
use Prim.Native.String
use aws_otel_js_instrumentat.Prelude.{
  ℕ, zero, suc, ◌+◌, ◌*◌, Bool, true, false, ◌&&◌, not, Option, none, some, List, [], ◌∷◌, ◌++◌,
  String, map, length, take, ltb, leb, nat_beq, if◌then◌else◌, Testable, ◌==◌, nat_test,
  string_test, lookup, insert, has_key, sort_by, decimal,
}
use aws_otel_js_instrumentat.EndpointMetrics.Histogram.{Histogram, record_unsafe}
use aws_otel_js_instrumentat.EndpointMetrics.Histogram

pub record ErrorData : Type 0 where
  pub error_type : String
  pub function_name : String
  pub count : ℕ

pub record ErrorInfo : Type 0 where
  pub error_type : String
  pub function_name : String

-- The exemplars are addresses: the incident collector keeps the same objects.
pub record EndpointAggregation : Type 0 where
  pub route : String
  pub method : String
  pub count : ℕ
  pub faults : ℕ
  pub errors : ℕ
  pub seh_histogram : Histogram
  pub sum_duration : ℕ
  pub error_breakdown : List (String × List (String × ErrorData))
  pub incidents_exemplar : List ℕ

abbrev pub Aggregations : Type 0
Aggregations = List (String × EndpointAggregation)

pub record Request : Type 0 where
  pub route : String
  pub method : String
  pub status_code : ℕ
  pub duration_ns : ℕ
  pub error_info : Option ErrorInfo

abbrev pub operation_of : Request → String
operation_of r = String.◌++◌ r.method (String.◌++◌ " " r.route)

abbrev pub error_key : ErrorInfo → String
error_key i = String.◌++◌ i.error_type (String.◌++◌ ":" i.function_name)

new_aggregation : Request → EndpointAggregation
new_aggregation r = record {
  route = r.route;
  method = r.method;
  count = 0;
  faults = 0;
  errors = 0;
  seh_histogram = Histogram.create 100;
  sum_duration = 0;
  error_breakdown = [];
  incidents_exemplar = [];
}

or_new : Option EndpointAggregation → Request → EndpointAggregation
or_new none r = new_aggregation r
or_new (some a) r = a

or_new_error : Option ErrorData → ErrorInfo → ErrorData
or_new_error none i = record {
  error_type = i.error_type;
  function_name = i.function_name;
  count = 0;
}
or_new_error (some d) i = d

or_no_failures : Option (List (String × ErrorData)) → List (String × ErrorData)
or_no_failures none = []
or_no_failures (some m) = m

count_error : ErrorData → ErrorData
count_error d = record d { count = d.count + 1 }

add_failure : ErrorInfo → List (String × ErrorData) → List (String × ErrorData)
unfolding or_new_error count_error
add_failure i m = insert (error_key i) (count_error (or_new_error (lookup (error_key i) m) i)) m

add_breakdown :
    String
    → ErrorInfo
    → List (String × List (String × ErrorData))
    → List (String × List (String × ErrorData))
unfolding add_failure or_no_failures
add_breakdown failure_type i m =
    insert failure_type (add_failure i (or_no_failures (lookup failure_type m))) m

breakdown_of :
    ℕ
    → Option ErrorInfo
    → List (String × List (String × ErrorData))
    → List (String × List (String × ErrorData))
unfolding add_breakdown
breakdown_of status_code none m = m
breakdown_of status_code (some i) m =
    if leb 500 status_code then add_breakdown (decimal status_code) i m else m

-- Opaque logarithm: see the histogram.
module _ (log_bucket : ℕ → ℕ) where
  count_duration : ℕ → EndpointAggregation → EndpointAggregation
  count_duration duration_ns a =
      if ltb 0 duration_ns
      then record a {
        seh_histogram = (record_unsafe log_bucket duration_ns a.seh_histogram).1;
        sum_duration = a.sum_duration + duration_ns;
      }
      else a

  count_status : ℕ → EndpointAggregation → EndpointAggregation
  count_status status_code a =
      if leb 500 status_code
      then record a { faults = a.faults + 1 }
      else if leb 400 status_code
      then record a { errors = a.errors + 1 }
      else a

  count_breakdown : Request → EndpointAggregation → EndpointAggregation
  unfolding breakdown_of
  count_breakdown r a = record a {
    error_breakdown = breakdown_of r.status_code r.error_info a.error_breakdown;
  }

  count_request : Request → EndpointAggregation → EndpointAggregation
  unfolding count_duration count_status count_breakdown
  count_request r a =
      count_breakdown r (
        count_duration r.duration_ns
          (count_status r.status_code (record a { count = a.count + 1 })))

  unfoldable pub record_request : Request → Aggregations → Aggregations
  unfolding count_request or_new new_aggregation
  record_request r m =
      insert (operation_of r) (count_request r (or_new (lookup (operation_of r) m) r)) m

push_exemplar : Option EndpointAggregation → String → ℕ → Aggregations → Aggregations
push_exemplar none operation exemplar m = m
push_exemplar (some a) operation exemplar m =
    insert operation (record a { incidents_exemplar = a.incidents_exemplar ++ (exemplar ∷ []) }) m

unfoldable pub record_incident_exemplar : String → ℕ → Aggregations → Aggregations
unfolding push_exemplar
record_incident_exemplar operation exemplar m =
    push_exemplar (lookup operation m) operation exemplar m

known_operation : String → Aggregations → Option String
known_operation operation m =
    if not (operation == "") && has_key operation m then some operation else none

unfoldable pub lookup_operation : Option String → Aggregations → Option String
unfolding known_operation
lookup_operation none m = none
lookup_operation (some operation) m = known_operation operation m
