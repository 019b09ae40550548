-- ===== src/Spans/Propagation/Chain.antt =====
-- What the spans of a trace carry.
use aws_otel_js_instrumentat.Prelude.{true, false, Option, some, List, [], ◌∷◌, if◌then◌else◌, ◌≡◌}
use aws_otel_js_instrumentat.Spans.Model.{
  AttributeValue, text, server, Span, Platform, get, same_kind,
}
use aws_otel_js_instrumentat.Spans.Operation.{get_ingress_operation}
use aws_otel_js_instrumentat.Spans.Propagation.{
  Context, set_is_local_root_information, take_over, default_on_start,
}

-- The context of a span whose parent is a span of the same process.
abbrev pub below : Span → Context
below parent = record {
  span_context = some (record { is_valid = true; is_remote = false });
  parent_span = some parent;
}

-- The spans started one below the other.
abbrev pub descendants : Platform → Span → List Span → List Span
descendants p parent [] = []
descendants p parent (span ∷ spans) =
    let child = default_on_start p (below parent) span in child ∷ descendants p child spans

-- A span that has a parent and does not serve a request.
abbrev pub IsInner : Span → Type 0
IsInner span = (span.has_parent ≡ true) × (same_kind server span.kind ≡ false)

-- What a span hands down to the spans below it: a server span its ingress operation, another one
-- the operation that it carries.
abbrev pub handed_down : Platform → Span → Option AttributeValue
handed_down p span =
    if same_kind server span.kind
    then some (text (get_ingress_operation p span))
    else get span "aws.local.operation"

before_data : Platform → Context → Span → Span
before_data p context span =
    take_over p ("aws.remote.service" ∷ "aws.remote.operation" ∷ []) context.parent_span
      (set_is_local_root_information context span)
