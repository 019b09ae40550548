-- ===== src/Spans/Kinds.antt =====
-- aws-span-processing-util.ts: what kind of call a span stands for, and for which of the two metrics
-- it counts.
pub mod Metrics
use aws_otel_js_instrumentat.Prelude.{
  Bool, true, false, not, ◌&&◌, ◌||◌, Option, none, some, String, codes, ◌==◌, text_test,
  starts_with, or_else, if◌then◌else◌, Text, is_present,
}
use aws_otel_js_instrumentat.Spans.Model.{
  AttributeValue, text, boolean, array, number, other, SpanKind, server, client, producer, consumer,
  Span, Platform, as_text, is_text, get, is_key_present, same_kind, kind_name,
}

unfoldable pub is_local_root_value : Option AttributeValue → Bool
is_local_root_value (some (boolean b)) = b
is_local_root_value (some (text t)) = true
is_local_root_value (some (array elements t)) = true
is_local_root_value (some (number n t)) = true
is_local_root_value (some (other truth t)) = true
is_local_root_value none = true

unfoldable pub is_local_root : Span → Bool
unfolding is_local_root_value get
is_local_root span = is_local_root_value (get span "aws.is.local.root")

unfoldable pub should_use_internal_operation : Span → Bool
unfolding is_local_root
should_use_internal_operation span = is_local_root span && not (same_kind server span.kind)

module _ (p : Platform) where
  unfoldable pub is_aws_sdk_span : Span → Bool
  is_aws_sdk_span span = is_text (as_text (get span p.names.rpc_system)) (codes "aws-api")

  unfoldable pub is_consumer_process_span : Span → Bool
  is_consumer_process_span span =
      same_kind consumer span.kind
      && is_text (as_text (get span p.names.messaging_operation)) p.names.process

  starts_aws_sdk : Option Text → Bool
  starts_aws_sdk none = false
  starts_aws_sdk (some scope) = starts_with (codes "@opentelemetry/instrumentation-aws-sdk") scope

  unfoldable pub is_sqs_receive_message_consumer_span : Span → Bool
  unfolding starts_aws_sdk
  is_sqs_receive_message_consumer_span span =
      p.to_lower_case (codes "Sqs.ReceiveMessage") == p.to_lower_case span.name
      && same_kind consumer span.kind
      && starts_aws_sdk span.scope
      && (not (is_present (get span p.names.messaging_operation))
          || is_text (as_text (get span p.names.messaging_operation)) p.names.process)

  unfoldable pub is_dependency_consumer_span : Span → Bool
  is_dependency_consumer_span span =
      if not (same_kind consumer span.kind)
      then false
      else if is_consumer_process_span span
      then is_local_root span
        || not (is_text (as_text (get span "aws.consumer.parent.span.kind")) (kind_name consumer))
      else true

  unfoldable pub should_generate_service_metric_attributes : Span → Bool
  should_generate_service_metric_attributes span =
      is_local_root span && not (is_sqs_receive_message_consumer_span span)
      || same_kind server span.kind

  unfoldable pub should_generate_dependency_metric_attributes : Span → Bool
  should_generate_dependency_metric_attributes span =
      same_kind client span.kind
      || same_kind producer span.kind
      || is_dependency_consumer_span span && not (is_sqs_receive_message_consumer_span span)

  unfoldable pub is_db_span : Span → Bool
  is_db_span span =
      is_key_present span p.names.db_system
      || is_key_present span p.names.db_operation
      || is_key_present span p.names.db_statement

  unfoldable pub get_resource_id : Span → Option Text
  get_resource_id span =
      if is_key_present span "cloud.resource_id"
      then as_text (get span "cloud.resource_id")
      else as_text (get span p.names.faas_id)
