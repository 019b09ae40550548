-- ===== src/EndpointMetrics/Tests.antt =====
-- Runs of serviceevents/utils/seh-histogram.ts and serviceevents/collectors/endpoint-collector.ts on
-- small inputs.
use aws_otel_js_instrumentat.Prelude.{
  ℕ, ◌/◌, Option, none, some, List, [], ◌∷◌, String, length, sum, ◌≡◌,
}
use aws_otel_js_instrumentat.EndpointMetrics.Histogram.{
  Number, create, finite, not_a_number, get_values_and_counts, get_statistics,
}
use aws_otel_js_instrumentat.EndpointMetrics.Histogram.Totals.{IsHistogram}
use aws_otel_js_instrumentat.EndpointMetrics.Histogram.Samples.{
  record_all, record_all-IsHistogram, exported_counts,
}
use aws_otel_js_instrumentat.EndpointMetrics.Endpoints.{Request, ErrorData, ErrorInfo}
use aws_otel_js_instrumentat.EndpointMetrics.Endpoints.Counters.{
  measured, tally, fault, client_error, described_fault, breakdown_total, record_requests,
  counters_of_requests,
}
use aws_otel_js_instrumentat.EndpointMetrics.Export.{EndpointMetricEvent, ErrorBreakdownEntry}

-- A stand-in for the logarithm.
abbrev tens : ℕ → ℕ
tens n = n / 10

abbrev plain : ℕ → ℕ
plain n = n

abbrev samples : List (Number × Number)
samples =
    (finite 0, finite 1)
    ∷ (finite 25, finite 2)
    ∷ (not_a_number, finite 1)
    ∷ (finite 31, finite 0)
    ∷ (finite 99, finite 1)
    ∷ []

record_all-IsHistogram_example : IsHistogram (record_all tens samples (create 2))
record_all-IsHistogram_example = record_all-IsHistogram tens samples 2

exported_counts_example :
    (sum (get_values_and_counts 0 plain (record_all tens samples (create 2))).1
      ≡ (get_statistics (record_all tens samples (create 2))).count)
    × (length (get_values_and_counts 0 plain (record_all tens samples (create 2))).0
        ≡ length (get_values_and_counts 0 plain (record_all tens samples (create 2))).1)
exported_counts_example = exported_counts 0 plain tens samples 2

abbrev finished : ℕ → Option ErrorInfo → Request
finished status info = record {
  route = "/pay";
  method = "POST";
  status_code = status;
  duration_ns = 25;
  error_info = info;
}

abbrev type_error : ErrorInfo
type_error = record { error_type = "TypeError"; function_name = "pay.charge" }

abbrev requests : List Request
requests =
    finished 500 (some type_error)
    ∷ finished 404 (some type_error)
    ∷ finished 200 none
    ∷ finished 500 (some type_error)
    ∷ finished 503 none
    ∷ []

counters_of_requests_example :
    (measured (λ a. a.count) "POST /pay" (record_requests tens requests [])
      ≡ tally (λ _. 1) "POST /pay" requests)
    × ((measured (λ a. a.faults) "POST /pay" (record_requests tens requests [])
          ≡ tally fault "POST /pay" requests)
        × ((measured (λ a. a.errors) "POST /pay" (record_requests tens requests [])
              ≡ tally client_error "POST /pay" requests)
            × ((measured (λ a. a.sum_duration) "POST /pay" (record_requests tens requests [])
                  ≡ tally (λ r. r.duration_ns) "POST /pay" requests)
                × (measured
                      (λ a. breakdown_total a.error_breakdown)
                      "POST /pay"
                      (record_requests tens requests [])
                    ≡ tally described_fault "POST /pay" requests))))
counters_of_requests_example = counters_of_requests tens "POST /pay" requests

abbrev error_data : String → ℕ → ErrorData
error_data function_name count = record {
  error_type = "TypeError";
  function_name = function_name;
  count = count;
}

abbrev breakdown : List (String × List (String × ErrorData))
breakdown =
    ("500", ("a", error_data "a" 1) ∷ ("b", error_data "b" 9) ∷ ("c", error_data "c" 3) ∷ [])
    ∷ ("503", ("a", error_data "a" 4) ∷ ("b", error_data "b" 2) ∷ ("c", error_data "c" 7) ∷ [])
    ∷ []

abbrev entry : String → ℕ → ErrorBreakdownEntry
entry function_name count = record {
  errors = record { error_type = "TypeError"; function_name = function_name } ∷ [];
  count = count;
  failure_type = "500";
}

abbrev event : EndpointMetricEvent ℕ
event = record {
  operation = "POST /pay";
  method = "POST";
  route = "/pay";
  count = 20;
  faults = 12;
  errors = 0;
  error_breakdown = entry "a" 9 ∷ entry "b" 3 ∷ [];
  incident_count = 0;
  incidents_exemplar = [];
  duration = record { values = []; counts = []; max = 0; min = 0; count = 0; sum = 0 };
}
