-- ===== src/MetricAttributes/Tests.antt =====
-- The metric attributes of small spans.
use aws_otel_js_instrumentat.Prelude.{
  IsMap, has_key, string_test, same_units, or_else, ◌≢◌, insert, true, some, [], ◌∷◌, codes, map,
  join, lookup, string_test, ◌≡◌, refl,
}
use aws_otel_js_instrumentat.Spans.Model.{
  Attributes, Platform, as_text, is_text, same_kind, text, other, client, Span, get,
}
use aws_otel_js_instrumentat.Spans.Sample.{platform, span_of}
use aws_otel_js_instrumentat.MetricAttributes.Escape.{escape_text}
use aws_otel_js_instrumentat.MetricAttributes.Escape.Fields.{fields, fields-join-escape_text}
use aws_otel_js_instrumentat.Spans.Kinds.{
  should_generate_service_metric_attributes, should_generate_dependency_metric_attributes,
  is_sqs_receive_message_consumer_span, is_local_root, is_local_root_value,
  should_use_internal_operation,
}
use aws_otel_js_instrumentat.Spans.Operation.{get_http_method}
use aws_otel_js_instrumentat.MetricAttributes.Generator.Subset.{
  service_metric_subset, operations_in_lambda,
}
use aws_otel_js_instrumentat.MetricAttributes.Exporter.{add_metric_attributes_to}
use aws_otel_js_instrumentat.MetricAttributes.Exporter.Exported.{exported_attributes}
use aws_otel_js_instrumentat.MetricAttributes.Processor.{Instruments, Ended}
use aws_otel_js_instrumentat.MetricAttributes.Generator.{
  generate_service_metric_attributes, set_span_kind_for_service, set_ingress_operation, set_service,
  generate_dependency_metric_attributes,
}
use aws_otel_js_instrumentat.MetricAttributes.Generator.Keys.{has, IsOwned}
use aws_otel_js_instrumentat.MetricAttributes.Generator.Complete.{dependency_resource_lem}

fields-join-escape_text_example :
    fields (join (codes "|") (map escape_text (codes "a|b" ∷ codes "^" ∷ [])))
    ≡ codes "a|b" ∷ codes "^" ∷ []
fields-join-escape_text_example = fields-join-escape_text (codes "a|b") (codes "^" ∷ [])

abbrev query : Span
query = span_of client (
    ("db.name", text (codes "a|b"))
    ∷ ("server.address", text (codes "host"))
    ∷ ("server.port", other true (codes "5432"))
    ∷ [])

dependency_resource_lem_example :
    let g = generate_dependency_metric_attributes platform query [] in
    (has "aws.remote.resource.identifier" g ≡ has "aws.remote.resource.type" g)
    × (has "aws.remote.resource.cfn.primary.identifier" g ≡ has "aws.remote.resource.type" g)
    × IsOwned g
    × (has "aws.remote.resource.account.id" g ≡ true → has "aws.remote.resource.type" g ≡ true)
dependency_resource_lem_example = dependency_resource_lem platform query []

service_metric_subset_example :
    lookup "aws.local.service" (generate_dependency_metric_attributes platform query [])
    ≡ some (text (codes "UnknownService"))
unfolding generate_service_metric_attributes set_span_kind_for_service set_ingress_operation
    set_service insert get_http_method as_text or_else get lookup should_use_internal_operation
    is_local_root is_local_root_value same_kind is_text
service_metric_subset_example =
    service_metric_subset platform query [] "aws.local.service" (text (codes "UnknownService")) refl
      refl refl refl refl

abbrev lambda : Platform
lambda = record platform { lambda_function_name = some (codes "fn") }

operations_in_lambda_example :
    lookup "aws.local.operation" (generate_service_metric_attributes lambda query [])
    ≢ lookup "aws.local.operation" (generate_dependency_metric_attributes lambda query [])
unfolding should_use_internal_operation is_local_root is_local_root_value get lookup same_kind
operations_in_lambda_example = operations_in_lambda lambda query [] (codes "fn") refl refl

abbrev no_records : Instruments
no_records = record { error_histogram = []; fault_histogram = []; latency_histogram = [] }

abbrev failed : Ended
failed = record { span = query; has_error = true; seconds = 1; nanos = 5 }

abbrev attributes : Attributes
attributes = ("aws.local.service", text (codes "shop")) ∷ []

query_once : IsMap query.attributes
unfolding has_key
query_once = (refl, (refl, (refl, tt)))

exported_attributes_example :
    get (add_metric_attributes_to platform [] query) "aws.span.kind"
    ≡ or_else (some (text (codes "LOCAL_ROOT"))) (get query "aws.span.kind")
unfolding should_generate_service_metric_attributes should_generate_dependency_metric_attributes
    is_sqs_receive_message_consumer_span is_local_root is_local_root_value get lookup same_kind
    same_units
exported_attributes_example =
    exported_attributes platform [] query "aws.span.kind" query_once refl refl
