-- ===== src/MetricAttributes/Generator/Unique.antt =====
-- A metric has each attribute once.
use aws_otel_js_instrumentat.Prelude.{
  Bool, true, false, Option, none, some, [], String, Text, string_test, IsMap, insert-IsMap,
  if-cases,
}
use aws_otel_js_instrumentat.Spans.Model.{
  AttributeValue, Attributes, Span, Platform, is_key_present,
}
use aws_otel_js_instrumentat.Spans.Kinds.{is_db_span}
use aws_otel_js_instrumentat.MetricAttributes.AgentCore.{Found}
use aws_otel_js_instrumentat.MetricAttributes.Resource.{
  set_found, set_remote_resource_type_and_identifier,
}
use aws_otel_js_instrumentat.MetricAttributes.Callee.{is_lambda_invoke_operation}
use aws_otel_js_instrumentat.MetricAttributes.Generator.{
  put_present, set_account_and_region, set_service, set_egress_operation,
  set_span_kind_for_dependency, set_remote_service_and_operation, set_remote_environment,
  set_remote_resource_account_id_and_region, set_remote_resource_access_key_and_region,
  set_remote_db_user, access_key_unless, set_owner, generate_dependency_metric_attributes,
}

put_present-IsMap :
    (key : String) (value : Option AttributeValue) (m : Attributes)
    → IsMap m
    → IsMap (put_present key value m)
unfolding put_present
put_present-IsMap key none m h = h
put_present-IsMap key (some value) m h = insert-IsMap key value m h

set_found-IsMap : (found : Found) (m : Attributes) → IsMap m → IsMap (set_found found m).0
unfolding set_found
set_found-IsMap (none, identifier, primary) m h = h
set_found-IsMap (some resource_type, none, primary) m h = h
set_found-IsMap (some resource_type, some identifier, none) m h =
    insert-IsMap _ _ _ (insert-IsMap _ _ _ (insert-IsMap _ _ m h))
set_found-IsMap (some resource_type, some identifier, some primary) m h =
    insert-IsMap _ _ _ (insert-IsMap _ _ _ (insert-IsMap _ _ m h))

set_account_and_region-IsMap :
    (account region : Option Text) (m : Attributes)
    → IsMap m
    → IsMap (set_account_and_region account region m).0
unfolding set_account_and_region
set_account_and_region-IsMap none none m h = h
set_account_and_region-IsMap none (some r) m h = h
set_account_and_region-IsMap (some a) none m h = h
set_account_and_region-IsMap (some a) (some r) m h = insert-IsMap _ _ _ (insert-IsMap _ _ m h)

module _ (p : Platform) where
  set_remote_db_user-IsMap :
      (span : Span) (m : Attributes) → IsMap m → IsMap (set_remote_db_user p span m)
  unfolding set_remote_db_user
  set_remote_db_user-IsMap span m h =
      if-cases IsMap (is_db_span p span) (λ _. put_present-IsMap _ _ m h) (λ _. h)

  set_remote_environment-IsMap :
      (span : Span) (m : Attributes) → IsMap m → IsMap (set_remote_environment p span m)
  unfolding set_remote_environment
  set_remote_environment-IsMap span m h =
      if-cases IsMap (is_lambda_invoke_operation p span) (λ _. insert-IsMap _ _ m h) (λ _. h)

  account_and_region-IsMap :
      (span : Span) (m : Attributes)
      → IsMap m
      → IsMap (set_remote_resource_account_id_and_region p span m).0
  unfolding set_remote_resource_account_id_and_region
  account_and_region-IsMap span m h =
      if-cases (λ (r : Attributes × Bool). IsMap r.0) (is_key_present span "aws.sqs.queue.url")
        (λ _. set_account_and_region-IsMap _ _ m h) (λ _. set_account_and_region-IsMap _ _ m h)

  access_key_unless-IsMap :
      (span : Span) (r : Attributes × Bool) → IsMap r.0 → IsMap (access_key_unless p span r)
  unfolding access_key_unless set_remote_resource_access_key_and_region
  access_key_unless-IsMap span (m, true) h = h
  access_key_unless-IsMap span (m, false) h = put_present-IsMap _ _ _ (put_present-IsMap _ _ m h)

  set_owner-IsMap : (span : Span) (r : Attributes × Bool) → IsMap r.0 → IsMap (set_owner p span r)
  unfolding set_owner
  set_owner-IsMap span (m, false) h = set_remote_environment-IsMap span m h
  set_owner-IsMap span (m, true) h =
      access_key_unless-IsMap span _
        (account_and_region-IsMap span _ (set_remote_environment-IsMap span m h))

  -- The attributes of a dependency metric have different names.
  pub generate_dependency_metric_attributes-IsMap :
      (span : Span) (resource : Attributes)
      → IsMap (generate_dependency_metric_attributes p span resource)
  unfolding generate_dependency_metric_attributes set_span_kind_for_dependency
      set_remote_service_and_operation set_egress_operation set_service
      set_remote_resource_type_and_identifier
  generate_dependency_metric_attributes-IsMap span resource = set_remote_db_user-IsMap span _ (
      insert-IsMap _ _ _ (
        set_owner-IsMap span _ (
          set_found-IsMap _ _ (
            insert-IsMap _ _ _
              (insert-IsMap _ _ _ (insert-IsMap _ _ _ (insert-IsMap _ _ [] tt)))))))
