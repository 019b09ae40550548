-- ===== src/Spans/Kinds/Metrics.antt =====
-- For which of the two metrics a span counts.
use mathlib.Core.Path.{◌≡◌, refl}
use native.Mathlib.Omega.{arith}
use aws_otel_js_instrumentat.Prelude.{Bool, true, false, not, ◌&&◌}
use aws_otel_js_instrumentat.Spans.Model.{
  SpanKind, internal, server, client, producer, consumer, Span, Platform, same_kind, kind_name, get,
  is_text, as_text,
}
use aws_otel_js_instrumentat.Spans.Kinds.{
  is_local_root, is_consumer_process_span, is_sqs_receive_message_consumer_span,
  is_dependency_consumer_span, should_generate_service_metric_attributes,
  should_generate_dependency_metric_attributes,
}

-- The metrics of a span, (service, dependency), by its kind: whether it is a local root, receives
-- messages for the SDK, and processes one below a consumer.
abbrev pub counted : SpanKind → Bool → Bool → Bool → Bool × Bool
counted server root receives processes = (true, false)
counted client root receives processes = (root, true)
counted producer root receives processes = (root, true)
counted internal root receives processes = (root, false)
counted consumer root receives processes = (root && not receives, not receives && not processes)

module _ (p : Platform) where
  abbrev pub processes_below_consumer : Span → Bool
  processes_below_consumer span =
      is_consumer_process_span p span
      && not (is_local_root span)
      && is_text (as_text (get span "aws.consumer.parent.span.kind")) (kind_name consumer)

  metrics_of_kind :
      (span : Span) (kind : SpanKind)
      → span.kind ≡ kind
      → (
        should_generate_service_metric_attributes p span,
        should_generate_dependency_metric_attributes p span,
      )
        ≡ counted kind
            (is_local_root span)
            (is_sqs_receive_message_consumer_span p span)
            (processes_below_consumer span)
  unfolding should_generate_service_metric_attributes should_generate_dependency_metric_attributes
      is_dependency_consumer_span is_sqs_receive_message_consumer_span same_kind
  metrics_of_kind span internal e = ground arith
  metrics_of_kind span server e = ground arith
  metrics_of_kind span client e = ground arith
  metrics_of_kind span producer e = ground arith
  metrics_of_kind span consumer e = ground arith

  -- A server span counts for the service metric alone, a client or producer span for the dependency
  -- metric and, as a local root, for the service metric, an internal span as a local root for the
  -- service metric. A consumer span counts for neither where the SDK receives messages with it;
  -- otherwise for the service metric as a local root, and for the dependency metric unless it
  -- processes a message below another consumer.
  pub metrics_lem :
      (span : Span)
      → (
        should_generate_service_metric_attributes p span,
        should_generate_dependency_metric_attributes p span,
      )
        ≡ counted span.kind
            (is_local_root span)
            (is_sqs_receive_message_consumer_span p span)
            (processes_below_consumer span)
  metrics_lem span = metrics_of_kind span span.kind refl
