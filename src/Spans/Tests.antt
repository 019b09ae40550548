-- ===== src/Spans/Tests.antt =====
-- The operations and the metrics of small spans.
use aws_otel_js_instrumentat.Prelude.{
  has_key, same_units, true, false, none, some, [], ◌∷◌, Text, codes, ◌≡◌, refl, lookup,
}
use aws_otel_js_instrumentat.Spans.Model.{
  is_text, text, boolean, server, client, internal, consumer, Span, get, same_kind, as_text,
}
use aws_otel_js_instrumentat.Spans.Sample.{platform, span_of}
use aws_otel_js_instrumentat.Spans.Kinds.{
  is_local_root, is_sqs_receive_message_consumer_span, should_generate_service_metric_attributes,
  should_generate_dependency_metric_attributes,
}
use aws_otel_js_instrumentat.Spans.Kinds.Metrics.{counted, processes_below_consumer, metrics_lem}
use aws_otel_js_instrumentat.Spans.GenAi.{EndedSpan, is_llm_span, end_all}
use aws_otel_js_instrumentat.Spans.GenAi.Nested.{IsNest, OneClient, innermost_stays_client}
use aws_otel_js_instrumentat.Spans.Propagation.{Context}

abbrev receiver : Span
receiver = span_of consumer (("aws.is.local.root", boolean false) ∷ [])

metrics_lem_example :
    (
      should_generate_service_metric_attributes platform receiver,
      should_generate_dependency_metric_attributes platform receiver,
    )
    ≡ counted consumer
        (is_local_root receiver)
        (is_sqs_receive_message_consumer_span platform receiver)
        (processes_below_consumer platform receiver)
metrics_lem_example = metrics_lem platform receiver

abbrev request : Span
request =
    span_of server
      (("http.target", text (codes "/users/1/?q")) ∷ ("http.method", text (codes "GET")) ∷ [])

abbrev setting : Text
setting = codes " /users/{id} ,/:any,/users/{id}/cart"

abbrev root : Span
root = span_of internal []

abbrev inner : Span
inner = record root { kind = client; has_parent = true }

abbrev no_context : Context
no_context = record { span_context = none; parent_span = none }

abbrev call : Span
call = span_of client (("gen_ai.operation.name", text (codes "chat")) ∷ [])

abbrev sdk_call : EndedSpan
sdk_call = record { span = call; span_id = codes "b"; parent_span_id = some (codes "a") }

abbrev framework_call : EndedSpan
framework_call = record { span = call; span_id = codes "a"; parent_span_id = none }

call-IsNest : IsNest sdk_call (framework_call ∷ [])
unfolding same_kind is_llm_span is_text as_text get lookup same_units
call-IsNest = (
  record { kind = refl; llm = refl; own = refl },
  refl,
  refl,
  record { kind = refl; llm = refl; own = refl },
)

innermost_stays_client_example : OneClient (end_all (sdk_call ∷ framework_call ∷ []) [])
unfolding has_key
innermost_stays_client_example =
    innermost_stays_client sdk_call (framework_call ∷ []) [] call-IsNest refl
