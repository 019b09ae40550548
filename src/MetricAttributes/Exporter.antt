-- ===== src/MetricAttributes/Exporter.antt =====
-- aws-metric-attributes-span-exporter.ts: the spans that are exported, with their metric attributes
-- (`addMetricAttributes`).
pub mod Exported
use aws_otel_js_instrumentat.Prelude.{
  Bool, true, false, Option, none, some, List, [], ◌∷◌, map, codes, string_test, insert, erase,
  is_empty, if◌then◌else◌,
}
use aws_otel_js_instrumentat.Spans.Model.{text, Attributes, Span, Platform}
use aws_otel_js_instrumentat.Spans.Kinds.{
  should_generate_service_metric_attributes, should_generate_dependency_metric_attributes,
}
use aws_otel_js_instrumentat.MetricAttributes.Generator.{
  AttributeMap, generate_metric_attribute_map_from_span,
}

-- `{ ...attributes }` of a value that may be missing.
present_or_empty : Option Attributes → Attributes
present_or_empty none = []
present_or_empty (some attributes) = attributes

unfoldable pub copy_attributes_with_local_root : Attributes → Attributes
copy_attributes_with_local_root attributes =
    insert "aws.span.kind" (text (codes "LOCAL_ROOT")) (erase "aws.span.kind" attributes)

-- The assignments of the second list, in its order, to the first one.
unfoldable pub assign : Attributes → Attributes → Attributes
assign held [] = held
assign held ((key, value) ∷ attributes) = assign (insert key value held) attributes

unfoldable pub wrap_span_with_attributes : Span → Attributes → Span
wrap_span_with_attributes span attributes = record span {
  attributes = assign (assign [] span.attributes) attributes;
}

unfoldable pub wrap_if_any : Span → Option Attributes → Span
wrap_if_any span none = span
wrap_if_any span (some attributes) =
    if is_empty attributes then span else wrap_span_with_attributes span attributes

-- The attributes of the one metric, or of the dependency metric as of a local root.
unfoldable pub chosen_attributes : Bool → Bool → AttributeMap → Option Attributes
unfolding present_or_empty
chosen_attributes true true attribute_map =
    some (copy_attributes_with_local_root (present_or_empty attribute_map.dependency_metric))
chosen_attributes true false attribute_map = attribute_map.service_metric
chosen_attributes false true attribute_map = attribute_map.dependency_metric
chosen_attributes false false attribute_map = some []

unfoldable pub add_metric_attributes_to : Platform → Attributes → Span → Span
add_metric_attributes_to p resource span = wrap_if_any span (
    chosen_attributes (should_generate_service_metric_attributes p span)
      (should_generate_dependency_metric_attributes p span)
      (generate_metric_attribute_map_from_span p span resource))

unfoldable pub add_metric_attributes : Platform → Attributes → List Span → List Span
add_metric_attributes p resource spans = map (add_metric_attributes_to p resource) spans
