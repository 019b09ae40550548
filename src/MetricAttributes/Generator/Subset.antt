-- ===== src/MetricAttributes/Generator/Subset.antt =====
-- The attributes of the service metric, against those of the dependency metric.
use aws_otel_js_instrumentat.Prelude.{
  Bool, Bool-cases, inl, inr, true, false, Option, none, some, [], ◌∷◌, ◌++◌, any, nat_beq, String,
  Text, codes, text_test, string_test, ◌==◌, lookup, insert, lookup-insert, ◌≡◌, ◌≢◌, subst, refl,
  sym, arith, ◌∙◌, ap, if◌then◌else◌,
}
use aws_otel_js_instrumentat.Spans.Model.{AttributeValue, text, Attributes, Span, Platform, is_text}
use aws_otel_js_instrumentat.Spans.Kinds.{should_use_internal_operation}
use aws_otel_js_instrumentat.Spans.Operation.{
  internal_operation, get_http_method, get_ingress_operation,
}
use aws_otel_js_instrumentat.Spans.Operation.Internal.{
  get_ingress_operation-internal, get_ingress_operation-lambda, get_egress_operation-internal,
}
use aws_otel_js_instrumentat.MetricAttributes.Generator.{
  set_service, set_ingress_operation, set_egress_operation, egress_or_unknown,
  set_span_kind_for_service, generate_service_metric_attributes,
  generate_dependency_metric_attributes,
}
use aws_otel_js_instrumentat.MetricAttributes.Generator.LocalKeys.{
  IsLocalKey, insert_other, dependency_local_key,
}

abbrev pub operation_key : IsLocalKey "aws.local.operation"
operation_key = record {
  remote_service = refl;
  remote_operation = refl;
  resource_type = refl;
  identifier = refl;
  primary = refl;
  environment = refl;
  account_id = refl;
  region = refl;
  access_key = refl;
  kind = refl;
  db_user = refl;
}

abbrev pub service_key : IsLocalKey "aws.local.service"
service_key = record {
  remote_service = refl;
  remote_operation = refl;
  resource_type = refl;
  identifier = refl;
  primary = refl;
  environment = refl;
  account_id = refl;
  region = refl;
  access_key = refl;
  kind = refl;
  db_user = refl;
}

only_key :
    (key j : String) (value held : AttributeValue)
    → lookup j (insert key value []) ≡ some held
    → key ≡ j
unfolding lookup insert
only_key key j value held found = elim (Bool-cases (key == j)) [
  | inl b ↦ (string_test.same_iff key j).0 b
  | inr b ↦ absurd (ground arith)
]

abbrev has_slash : Option AttributeValue → Bool
has_slash (some (text t)) = any (nat_beq 47) t
has_slash _ = false

handler_has_slash : (name : Text) → any (nat_beq 47) (name ++ codes "/FunctionHandler") ≡ true
handler_has_slash [] = refl
handler_has_slash (c ∷ name) = ground (arith, handler_has_slash name)

module _ (p : Platform) where
  dependency_operation :
      (span : Span) (resource : Attributes)
      → should_use_internal_operation span ≡ true
      → lookup "aws.local.operation" (generate_dependency_metric_attributes p span resource)
        ≡ some (text internal_operation)
  unfolding set_egress_operation egress_or_unknown
  dependency_operation span resource internal =
      dependency_local_key p operation_key span resource
      ∙ rw (get_egress_operation-internal span internal, lookup-insert) refl

  dependency_service :
      (span : Span) (resource : Attributes)
      → lookup "aws.local.service" (generate_dependency_metric_attributes p span resource)
        ≡ lookup "aws.local.service" (set_service p resource [])
  unfolding set_egress_operation
  dependency_service span resource =
      dependency_local_key p service_key span resource
      ∙ insert_other "aws.local.operation" "aws.local.service" _ _ refl

  service_lookup :
      (span : Span) (resource : Attributes) (key : String)
      → "aws.span.kind" == key ≡ false
      → lookup key (generate_service_metric_attributes p span resource) ≡ (
          if "aws.local.operation" == key
          then some (text (get_ingress_operation p span))
          else lookup key (set_service p resource []))
  unfolding generate_service_metric_attributes set_span_kind_for_service set_ingress_operation
  service_lookup span resource key kind =
      insert_other "aws.span.kind" key _ _ kind ∙ lookup-insert "aws.local.operation" key _ _

  only_service :
      (resource : Attributes) (key : String) (value : AttributeValue)
      → lookup key (set_service p resource []) ≡ some value
      → "aws.local.service" ≡ key
  unfolding set_service
  only_service resource key value found = only_key "aws.local.service" key _ value found

  -- Outside of Lambda, where the method of a local root that is no server is not the name of the
  -- internal operation, the attributes of the service metric are among those of the dependency
  -- metric, all but the kind.
  pub service_metric_subset :
      (span : Span) (resource : Attributes) (key : String) (value : AttributeValue)
      → p.lambda_function_name ≡ none
      → is_text (get_http_method p span) internal_operation ≡ false
      → should_use_internal_operation span ≡ true
      → "aws.span.kind" == key ≡ false
      → lookup key (generate_service_metric_attributes p span resource) ≡ some value
      → lookup key (generate_dependency_metric_attributes p span resource) ≡ some value
  service_metric_subset span resource key value outside method internal kind found =
      elim (Bool-cases ("aws.local.operation" == key)) [
        | inl b ↦
            subst
              (λ k. lookup k (generate_dependency_metric_attributes p span resource) ≡ some value)
              ((string_test.same_iff "aws.local.operation" key).0 b)
              (dependency_operation span resource internal
                ∙ ap (λ (t : Text). some (text t))
                    (sym (get_ingress_operation-internal p span outside method internal))
                ∙ ground (arith, service_lookup span resource key kind))
        | inr b ↦
            let held = sym (service_lookup span resource key kind ∙ rw b refl) ∙ found in
            subst
              (λ k. lookup k (generate_dependency_metric_attributes p span resource) ≡ some value)
              (only_service resource key value held)
              (dependency_service span resource
                ∙ subst (λ k. lookup k (set_service p resource []) ≡ some value)
                    (sym (only_service resource key value held)) held)
      ]

  -- In Lambda, the two metrics of such a span never have one local operation.
  pub operations_in_lambda :
      (span : Span) (resource : Attributes) (name : Text)
      → p.lambda_function_name ≡ some name
      → should_use_internal_operation span ≡ true
      → lookup "aws.local.operation" (generate_service_metric_attributes p span resource)
        ≢ lookup "aws.local.operation" (generate_dependency_metric_attributes p span resource)
  operations_in_lambda span resource name inside internal = λ e. absurd (
      ground (
        arith,
        ap has_slash (
            sym (
              service_lookup span resource "aws.local.operation" refl
              ∙ ap (λ (t : Text). some (text t)) (get_ingress_operation-lambda p span name inside))
            ∙ (e ∙ dependency_operation span resource internal)),
        handler_has_slash name,
      ))
