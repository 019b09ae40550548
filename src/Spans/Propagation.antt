-- ===== src/Spans/Propagation.antt =====
-- attribute-propagating-span-processor.ts: what a span takes over from its parent when it starts.
pub mod Marks
pub mod Chain
use aws_otel_js_instrumentat.Prelude.{
  Bool, true, false, not, ◌&&◌, ◌||◌, Option, none, some, List, [], ◌∷◌, String, Text, codes,
  is_empty, if◌then◌else◌,
}
use aws_otel_js_instrumentat.Spans.Model.{
  AttributeValue, text, boolean, SpanKind, internal, server, consumer, Span, Platform, get,
  is_key_present, set_attribute, same_kind, kind_name,
}
use aws_otel_js_instrumentat.Spans.Operation.{get_ingress_operation}
use aws_otel_js_instrumentat.Spans.Kinds.{is_local_root, is_aws_sdk_span, get_resource_id}

pub record SpanContext : Type 0 where
  pub is_valid : Bool
  pub is_remote : Bool

-- `trace.getSpanContext` and, where it is a span of the SDK, `trace.getSpan` of the parent context.
pub record Context : Type 0 where
  pub span_context : Option SpanContext
  pub parent_span : Option Span

unfoldable pub is_local_context : Option SpanContext → Bool
is_local_context none = false
is_local_context (some c) = c.is_valid && not c.is_remote

unfoldable pub set_is_local_root_information : Context → Span → Span
unfolding is_local_context
set_is_local_root_information context span =
    set_attribute span "aws.is.local.root"
      (boolean (not span.has_parent || not (is_local_context context.span_context)))

unfoldable pub set_if_present : String → Option AttributeValue → Span → Span
set_if_present key none span = span
set_if_present key (some value) span = set_attribute span key value

-- The loop over the keys to propagate.
unfoldable pub propagate_keys : List String → Span → Span → Span
propagate_keys [] parent span = span
propagate_keys (key ∷ keys) parent span =
    propagate_keys keys parent (set_if_present key (get parent key) span)

module _ (p : Platform) where
  unfoldable pub mark_sdk_descendant : Span → Span → Span
  mark_sdk_descendant parent span =
      if is_aws_sdk_span p parent
      then set_attribute span "aws.sdk.descendant" (text (codes "true"))
      else span

  unfoldable pub propagate_from_internal : List String → Span → Span → Span
  propagate_from_internal keys parent span =
      if same_kind internal parent.kind then propagate_keys keys parent span else span

  unfoldable pub mark_consumer_parent : Span → Span → Span
  mark_consumer_parent parent span =
      if same_kind consumer span.kind && same_kind consumer parent.kind
      then set_attribute span "aws.consumer.parent.span.kind" (text (kind_name parent.kind))
      else span

  is_truthy_text : Option Text → Bool
  is_truthy_text none = false
  is_truthy_text (some t) = not (is_empty t)

  unfoldable pub resource_id_of_parent : Span → Option Text → Span → Span
  resource_id_of_parent parent none span = span
  resource_id_of_parent parent (some resource_id) span =
      if is_key_present parent "cloud.resource_id"
      then set_attribute span "cloud.resource_id" (text resource_id)
      else set_attribute span p.names.faas_id (text resource_id)

  unfoldable pub propagate_resource_id : Span → Span → Span
  unfolding is_truthy_text resource_id_of_parent
  propagate_resource_id parent span =
      if not (is_truthy_text (get_resource_id p span)) && is_truthy_text (get_resource_id p parent)
      then resource_id_of_parent parent (get_resource_id p parent) span
      else span

  unfoldable pub take_over : List String → Option Span → Span → Span
  take_over keys none span = span
  take_over keys (some parent) span = propagate_resource_id parent (
      mark_consumer_parent parent
        (propagate_from_internal keys parent (mark_sdk_descendant parent span)))

module _ (extractor : Span → Text) (propagation_data_key : String) where
  unfoldable pub data_of_parent : Option Span → Option AttributeValue
  data_of_parent none = none
  data_of_parent (some parent) =
      if same_kind server parent.kind
      then some (text (extractor parent))
      else get parent propagation_data_key

  unfoldable pub propagation_data : Option Span → Span → Option AttributeValue
  unfolding data_of_parent
  propagation_data parent span =
      if is_local_root span
      then if same_kind server span.kind then none else some (text (extractor span))
      else data_of_parent parent

  unfoldable pub set_propagation_data : Option Span → Span → Span
  set_propagation_data parent span =
      set_if_present propagation_data_key (propagation_data parent span) span

-- `onStart(span, parentContext)`
unfoldable pub on_start : Platform → (Span → Text) → String → List String → Context → Span → Span
on_start p extractor propagation_data_key keys context span =
    set_propagation_data extractor propagation_data_key context.parent_span
      (take_over p keys context.parent_span (set_is_local_root_information context span))

-- The processor with the settings of its builder.
unfoldable pub default_on_start : Platform → Context → Span → Span
default_on_start p context span =
    on_start p (get_ingress_operation p) "aws.local.operation"
      ("aws.remote.service" ∷ "aws.remote.operation" ∷ []) context span
