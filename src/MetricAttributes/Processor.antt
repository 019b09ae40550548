-- ===== src/MetricAttributes/Processor.antt =====
-- aws-span-metrics-processor.ts: the errors, faults and latencies that are recorded of an ended span.
-- A histogram is the list of its records, the last one first; a latency is in whole nanoseconds.
pub mod Records
use aws_otel_js_instrumentat.Prelude.{
  ℕ, Bool, true, false, not, ◌&&◌, ◌||◌, Option, none, some, List, [], ◌∷◌, String, Text, codes,
  ◌==◌, text_test, string_test, leb, ltb, lookup, is_empty, ◌+◌, ◌*◌, if◌then◌else◌,
}
use aws_otel_js_instrumentat.Spans.Model.{
  AttributeValue, text, boolean, array, number, other, Attributes, Span, Platform, as_text, is_text,
  get,
}
use aws_otel_js_instrumentat.Spans.Paths.{apply_operation_path_span_name}
use aws_otel_js_instrumentat.MetricAttributes.Generator.{
  AttributeMap, generate_metric_attribute_map_from_span,
}

abbrev pub Histogram : Type 0
Histogram = List (ℕ × Attributes)

pub record Instruments : Type 0 where
  pub error_histogram : Histogram
  pub fault_histogram : Histogram
  pub latency_histogram : Histogram

-- What has ended: the span, whether its status is an error, and its duration.
pub record Ended : Type 0 where
  pub span : Span
  pub has_error : Bool
  pub seconds : ℕ
  pub nanos : ℕ

abbrev error_code_lower_bound : ℕ
error_code_lower_bound = 400

abbrev error_code_upper_bound : ℕ
error_code_upper_bound = 499

abbrev fault_code_lower_bound : ℕ
fault_code_lower_bound = 500

abbrev fault_code_upper_bound : ℕ
fault_code_upper_bound = 599

-- A status code that is a number; a number that is not whole is none here.
as_number : Option AttributeValue → Option ℕ
as_number none = none
as_number (some (number n t)) = some n
as_number (some (text t)) = none
as_number (some (boolean b)) = none
as_number (some (array elements t)) = none
as_number (some (other truth t)) = none

number_or : Option ℕ → Option ℕ → Option ℕ
number_or none second = second
number_or (some n) second = some n

record_both : ℕ → ℕ → Attributes → Instruments → Instruments
record_both errors faults attributes i = record i {
  error_histogram = (errors, attributes) ∷ i.error_histogram;
  fault_histogram = (faults, attributes) ∷ i.fault_histogram;
}

by_status : Bool → Attributes → Instruments → Instruments
unfolding record_both
by_status has_error attributes i =
    if has_error then record_both 0 1 attributes i else record_both 0 0 attributes i

by_code : Bool → Option ℕ → Attributes → Instruments → Instruments
unfolding by_status record_both
by_code has_error none attributes i = by_status has_error attributes i
by_code has_error (some code) attributes i =
    if ltb code error_code_lower_bound || ltb fault_code_upper_bound code
    then by_status has_error attributes i
    else if leb error_code_lower_bound code && leb code error_code_upper_bound
    then record_both 1 0 attributes i
    else if leb fault_code_lower_bound code && leb code fault_code_upper_bound
    then record_both 0 1 attributes i
    else i

module _ (p : Platform) where
  unfoldable pub http_status_code : Span → Attributes → Option ℕ
  unfolding as_number number_or
  http_status_code span attributes =
      number_or (as_number (get span p.names.http_status_code))
        (as_number (lookup p.names.http_status_code attributes))

  unfoldable pub record_error_or_fault : Ended → Attributes → Instruments → Instruments
  unfolding by_code
  record_error_or_fault ended attributes i =
      by_code ended.has_error (http_status_code ended.span attributes) attributes i

  unfoldable pub record_latency : Ended → Attributes → Instruments → Instruments
  record_latency ended attributes i = record i {
    latency_histogram =
        (ended.seconds * 1000000000 + ended.nanos, attributes) ∷ i.latency_histogram;
  }

  unfoldable pub is_ec2_metadata_api_span : Attributes → Bool
  is_ec2_metadata_api_span attributes =
      is_text (as_text (lookup "aws.remote.service" attributes)) (codes "169.254.169.254")

  unfoldable pub record_metrics : Ended → Attributes → Instruments → Instruments
  record_metrics ended attributes i =
      if not (is_empty attributes) && not (is_ec2_metadata_api_span attributes)
      then record_latency ended attributes (record_error_or_fault ended attributes i)
      else i

  unfoldable pub record_if_present : Ended → Option Attributes → Instruments → Instruments
  record_if_present ended none i = i
  record_if_present ended (some attributes) i = record_metrics ended attributes i

  -- The loop over the metrics, that of the service first.
  unfoldable pub record_map : Ended → AttributeMap → Instruments → Instruments
  record_map ended m i =
      record_if_present ended m.dependency_metric (record_if_present ended m.service_metric i)

  -- The span is renamed for the metrics, and stays so.
  unfoldable pub renamed_span : Option Text → Ended → Ended
  renamed_span config ended = record ended {
    span = apply_operation_path_span_name p config ended.span;
  }

  unfoldable pub on_end : Option Text → Attributes → Ended → Instruments → Ended × Instruments
  on_end config resource ended i =
      let renamed = renamed_span config ended in
      (
        renamed,
        record_map renamed (generate_metric_attribute_map_from_span p renamed.span resource) i,
      )
