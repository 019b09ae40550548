-- ===== src/Spans/Operation/Internal.antt =====
-- The operation of a local root that is no server.
use aws_otel_js_instrumentat.Prelude.{
  true, false, Option, none, some, ◌++◌, Text, codes, text_test, same_units, ◌≡◌, refl, ◌∙◌, ap,
}
use aws_otel_js_instrumentat.Spans.Model.{Span, Platform, is_text}
use aws_otel_js_instrumentat.Spans.Kinds.{should_use_internal_operation}
use aws_otel_js_instrumentat.Spans.Operation.{
  internal_operation, get_http_method, is_valid_operation, own_operation, valid_or_generated,
  ingress_operation_in, get_ingress_operation, get_egress_operation,
}

module _ (p : Platform) where
  valid_internal :
      (span : Span)
      → is_text (get_http_method p span) internal_operation ≡ false
      → is_valid_operation p span internal_operation ≡ true
  unfolding is_valid_operation same_units
  valid_internal span method = rw method refl

  pub get_ingress_operation-internal :
      (span : Span)
      → p.lambda_function_name ≡ none
      → is_text (get_http_method p span) internal_operation ≡ false
      → should_use_internal_operation span ≡ true
      → get_ingress_operation p span ≡ internal_operation
  unfolding get_ingress_operation ingress_operation_in own_operation valid_or_generated
  get_ingress_operation-internal span outside method internal =
      ap (λ (f : Option Text). ingress_operation_in p f span) outside
      ∙ rw (internal, valid_internal span method) refl

  pub get_ingress_operation-lambda :
      (span : Span) (name : Text)
      → p.lambda_function_name ≡ some name
      → get_ingress_operation p span ≡ name ++ codes "/FunctionHandler"
  unfolding get_ingress_operation ingress_operation_in
  get_ingress_operation-lambda span name inside =
      ap (λ (f : Option Text). ingress_operation_in p f span) inside

pub get_egress_operation-internal :
    (span : Span)
    → should_use_internal_operation span ≡ true
    → get_egress_operation span ≡ some internal_operation
unfolding get_egress_operation
get_egress_operation-internal span internal = rw internal refl
