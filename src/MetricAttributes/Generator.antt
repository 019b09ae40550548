-- ===== src/MetricAttributes/Generator.antt =====
-- aws-metric-attribute-generator.ts: the attributes of the two metrics
-- (`generateMetricAttributeMapFromSpan`).
pub mod Keys
pub mod Complete
pub mod LocalKeys
pub mod Subset
pub mod Unique
use aws_otel_js_instrumentat.Prelude.{
  Bool, true, false, not, ◌&&◌, ◌||◌, Option, none, some, List, [], ◌∷◌, ◌++◌, String, Text, codes,
  ◌==◌, text_test, string_test, lookup, insert, trim, is_empty, if_present, if◌then◌else◌,
}
use aws_otel_js_instrumentat.Spans.Model.{
  AttributeValue, text, Attributes, Span, Platform, as_text, is_text, get, is_key_present,
  kind_name,
}
use aws_otel_js_instrumentat.Spans.Kinds.{
  is_local_root, is_db_span, should_generate_service_metric_attributes,
  should_generate_dependency_metric_attributes,
}
use aws_otel_js_instrumentat.Spans.Operation.{
  unknown_operation, get_ingress_operation, get_egress_operation,
}
use aws_otel_js_instrumentat.Arns.Arn
use aws_otel_js_instrumentat.Arns.SqsUrl
use aws_otel_js_instrumentat.MetricAttributes.Escape.{escape_delimiters}
use aws_otel_js_instrumentat.MetricAttributes.Callee.{is_lambda_invoke_operation}
use aws_otel_js_instrumentat.MetricAttributes.Remote.{Remote, remote_service_and_operation}
use aws_otel_js_instrumentat.PresignedUrls.S3.{PresignedUrlAttribution}
use aws_otel_js_instrumentat.MetricAttributes.Resource.{
  put, set_remote_resource_type_and_identifier,
}

-- An assignment of a value that may be missing.
unfoldable pub put_present : String → Option AttributeValue → Attributes → Attributes
put_present key none attributes = attributes
put_present key (some value) attributes = insert key value attributes

-- Account and region, set together or not at all.
unfoldable pub set_account_and_region : Option Text → Option Text → Attributes → Attributes × Bool
set_account_and_region (some account_id) (some region) attributes = (
  put "aws.remote.resource.region" region
      (put "aws.remote.resource.account.id" account_id attributes),
  true,
)
set_account_and_region (some account_id) none attributes = (attributes, false)
set_account_and_region none region attributes = (attributes, false)

abbrev arn_attributes : List String
arn_attributes =
    "aws.dynamodb.table.arn" ∷ "aws.kinesis.stream.arn" ∷ "aws.sns.topic.arn"
    ∷ "aws.secretsmanager.secret.arn" ∷ "aws.step_functions.state_machine.arn"
    ∷ "aws.step_functions.activity.arn" ∷ "aws.lambda.function.arn" ∷ "aws.bedrock.guardrail.arn"
    ∷ "aws.bedrock.agentcore.runtime.arn" ∷ "aws.bedrock.agentcore.runtime_endpoint.arn"
    ∷ "aws.bedrock.agentcore.browser.arn" ∷ "aws.bedrock.agentcore.code_interpreter.arn"
    ∷ "aws.bedrock.agentcore.gateway.arn" ∷ "aws.bedrock.agentcore.memory.arn"
    ∷ "aws.bedrock.agentcore.identity.workload_identity.arn" ∷ []

-- The value of the first key that is present.
first_present : Span → List String → Option AttributeValue
first_present span [] = none
first_present span (key ∷ keys) =
    if is_key_present span key then get span key else first_present span keys

remote_environment : Option Text → Text
remote_environment none = codes "default"
remote_environment (some setting) =
    if is_empty (trim setting) then codes "default" else trim setting

-- The attributes of the service metric and of the dependency metric.
pub record AttributeMap : Type 0 where
  pub service_metric : Option Attributes
  pub dependency_metric : Option Attributes

module _ (p : Platform) where
  service_or_unknown : Option AttributeValue → AttributeValue
  service_or_unknown none = text (codes "UnknownService")
  service_or_unknown (some service) =
      if is_text (as_text (some service)) p.default_service_name
      then text (codes "UnknownService")
      else service

  unfoldable pub set_service : Attributes → Attributes → Attributes
  unfolding service_or_unknown
  set_service resource attributes =
      insert "aws.local.service" (service_or_unknown (lookup p.names.service_name resource))
        attributes

  unfoldable pub set_ingress_operation : Span → Attributes → Attributes
  set_ingress_operation span attributes =
      put "aws.local.operation" (get_ingress_operation p span) attributes

  egress_or_unknown : Option Text → Text
  egress_or_unknown none = unknown_operation
  egress_or_unknown (some operation) = operation

  unfoldable pub set_egress_operation : Span → Attributes → Attributes
  unfolding egress_or_unknown
  set_egress_operation span attributes =
      put "aws.local.operation" (egress_or_unknown (get_egress_operation span)) attributes

  unfoldable pub set_span_kind_for_service : Span → Attributes → Attributes
  set_span_kind_for_service span attributes =
      put "aws.span.kind" (if is_local_root span then codes "LOCAL_ROOT" else kind_name span.kind)
        attributes

  unfoldable pub set_span_kind_for_dependency : Span → Attributes → Attributes
  set_span_kind_for_dependency span attributes =
      put "aws.span.kind" (kind_name span.kind) attributes

  unfoldable pub set_remote_service_and_operation : Span → Attributes → Attributes
  set_remote_service_and_operation span attributes =
      let remote = remote_service_and_operation p span in
      put "aws.remote.operation" remote.operation
        (put "aws.remote.service" remote.service attributes)

  unfoldable pub set_remote_environment : Span → Attributes → Attributes
  unfolding remote_environment
  set_remote_environment span attributes =
      if is_lambda_invoke_operation p span
      then put "aws.remote.environment"
          (codes "lambda:" ++ remote_environment p.lambda_remote_environment) attributes
      else attributes

  unfoldable pub set_remote_resource_account_id_and_region : Span → Attributes → Attributes × Bool
  unfolding first_present
  set_remote_resource_account_id_and_region span attributes =
      let queue_url = if_present text (escape_delimiters (get span "aws.sqs.queue.url")) in
      let arn = first_present span arn_attributes in
      if is_key_present span "aws.sqs.queue.url"
      then set_account_and_region (SqsUrl.get_account_id p.to_lower_case queue_url)
          (SqsUrl.get_region p.to_lower_case queue_url) attributes
      else set_account_and_region (Arn.get_account_id arn) (Arn.get_region arn) attributes

  unfoldable pub set_remote_resource_access_key_and_region : Span → Attributes → Attributes
  set_remote_resource_access_key_and_region span attributes =
      put_present "aws.remote.resource.region" (get span "aws.auth.region") (
        put_present "aws.remote.resource.account.access_key"
          (get span "aws.auth.account.access_key") attributes)

  unfoldable pub set_remote_db_user : Span → Attributes → Attributes
  set_remote_db_user span attributes =
      if is_db_span p span
      then put_present "aws.remote.db.user" (get span p.names.db_user) attributes
      else attributes

  unfoldable pub access_key_unless : Span → Attributes × Bool → Attributes
  access_key_unless span (attributes, true) = attributes
  access_key_unless span (attributes, false) =
      set_remote_resource_access_key_and_region span attributes

  -- What follows on the resource: the environment, and the owner of a resource that was found.
  unfoldable pub set_owner : Span → Attributes × Bool → Attributes
  set_owner span (attributes, false) = set_remote_environment span attributes
  set_owner span (attributes, true) =
      access_key_unless span
        (set_remote_resource_account_id_and_region span (set_remote_environment span attributes))

  unfoldable pub generate_service_metric_attributes : Span → Attributes → Attributes
  generate_service_metric_attributes span resource =
      set_span_kind_for_service span (set_ingress_operation span (set_service resource []))

  unfoldable pub generate_dependency_metric_attributes : Span → Attributes → Attributes
  unfolding set_owner access_key_unless
  generate_dependency_metric_attributes span resource = set_remote_db_user span (
      set_span_kind_for_dependency span (
        set_owner span (
          set_remote_resource_type_and_identifier p span
            (remote_service_and_operation p span).attribution
            (set_remote_service_and_operation span
              (set_egress_operation span (set_service resource []))))))

  unfoldable pub generate_metric_attribute_map_from_span : Span → Attributes → AttributeMap
  generate_metric_attribute_map_from_span span resource = record {
    service_metric =
        if should_generate_service_metric_attributes p span
        then some (generate_service_metric_attributes span resource)
        else none;
    dependency_metric =
        if should_generate_dependency_metric_attributes p span
        then some (generate_dependency_metric_attributes span resource)
        else none;
  }
