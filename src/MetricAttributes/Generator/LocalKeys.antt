-- ===== src/MetricAttributes/Generator/LocalKeys.antt =====
-- The keys of the local part of a metric, which the rest of the generator leaves alone.
use aws_otel_js_instrumentat.Prelude.{
  Bool, true, false, Option, none, some, [], String, Text, text_test, string_test, ◌==◌, lookup,
  insert, lookup-insert, if-cases, ◌≡◌, refl, arith, ◌∙◌,
}
use aws_otel_js_instrumentat.Spans.Model.{
  AttributeValue, Attributes, Span, Platform, is_key_present,
}
use aws_otel_js_instrumentat.Spans.Kinds.{is_db_span}
use aws_otel_js_instrumentat.MetricAttributes.AgentCore.{Found}
use aws_otel_js_instrumentat.MetricAttributes.Resource.{
  set_found, set_remote_resource_type_and_identifier,
}
use aws_otel_js_instrumentat.MetricAttributes.Callee.{is_lambda_invoke_operation}
use aws_otel_js_instrumentat.MetricAttributes.Generator.{
  put_present, set_account_and_region, set_service, set_egress_operation,
  set_span_kind_for_dependency, set_remote_service_and_operation, set_remote_environment,
  set_remote_resource_account_id_and_region, set_remote_resource_access_key_and_region,
  set_remote_db_user, access_key_unless, set_owner, generate_dependency_metric_attributes,
}

-- A key that only the local part of the generator sets.
pub record IsLocalKey (j : String) : Type 0 where
  pub remote_service : "aws.remote.service" == j ≡ false
  pub remote_operation : "aws.remote.operation" == j ≡ false
  pub resource_type : "aws.remote.resource.type" == j ≡ false
  pub identifier : "aws.remote.resource.identifier" == j ≡ false
  pub primary : "aws.remote.resource.cfn.primary.identifier" == j ≡ false
  pub environment : "aws.remote.environment" == j ≡ false
  pub account_id : "aws.remote.resource.account.id" == j ≡ false
  pub region : "aws.remote.resource.region" == j ≡ false
  pub access_key : "aws.remote.resource.account.access_key" == j ≡ false
  pub kind : "aws.span.kind" == j ≡ false
  pub db_user : "aws.remote.db.user" == j ≡ false

pub insert_other :
    (key j : String) (value : AttributeValue) (m : Attributes)
    → key == j ≡ false
    → lookup j (insert key value m) ≡ lookup j m
insert_other key j value m ne = ground (arith, lookup-insert key j value m)

put_present_other :
    (key j : String) (value : Option AttributeValue) (m : Attributes)
    → key == j ≡ false
    → lookup j (put_present key value m) ≡ lookup j m
unfolding put_present
put_present_other key j none m ne = refl
put_present_other key j (some value) m ne = insert_other key j value m ne

module _ (p : Platform) {j : String} (local : IsLocalKey j) where
  set_found_other : (found : Found) (m : Attributes) → lookup j (set_found found m).0 ≡ lookup j m
  unfolding set_found
  set_found_other (none, identifier, primary) m = refl
  set_found_other (some resource_type, none, primary) m = refl
  set_found_other (some resource_type, some identifier, none) m =
      insert_other _ j _ _ local.primary
      ∙ insert_other _ j _ _ local.identifier
      ∙ insert_other _ j _ m local.resource_type
  set_found_other (some resource_type, some identifier, some primary) m =
      insert_other _ j _ _ local.primary
      ∙ insert_other _ j _ _ local.identifier
      ∙ insert_other _ j _ m local.resource_type

  db_user_other :
      (span : Span) (m : Attributes) → lookup j (set_remote_db_user p span m) ≡ lookup j m
  unfolding set_remote_db_user
  db_user_other span m =
      if-cases (λ (n : Attributes). lookup j n ≡ lookup j m) (is_db_span p span)
        (λ _. put_present_other _ j _ m local.db_user) (λ _. refl)

  environment_other :
      (span : Span) (m : Attributes) → lookup j (set_remote_environment p span m) ≡ lookup j m
  unfolding set_remote_environment
  environment_other span m =
      if-cases (λ (n : Attributes). lookup j n ≡ lookup j m) (is_lambda_invoke_operation p span)
        (λ _. insert_other _ j _ m local.environment) (λ _. refl)

  account_other :
      (account region : Option Text) (m : Attributes)
      → lookup j (set_account_and_region account region m).0 ≡ lookup j m
  unfolding set_account_and_region
  account_other none none m = refl
  account_other none (some r) m = refl
  account_other (some a) none m = refl
  account_other (some a) (some r) m =
      insert_other _ j _ _ local.region ∙ insert_other _ j _ m local.account_id

  account_and_region_other :
      (span : Span) (m : Attributes)
      → lookup j (set_remote_resource_account_id_and_region p span m).0 ≡ lookup j m
  unfolding set_remote_resource_account_id_and_region
  account_and_region_other span m =
      if-cases (λ (r : Attributes × Bool). lookup j r.0 ≡ lookup j m)
        (is_key_present span "aws.sqs.queue.url") (λ _. account_other _ _ m)
        (λ _. account_other _ _ m)

  access_key_other :
      (span : Span) (m : Attributes)
      → lookup j (set_remote_resource_access_key_and_region p span m) ≡ lookup j m
  unfolding set_remote_resource_access_key_and_region
  access_key_other span m =
      put_present_other _ j _ _ local.region ∙ put_present_other _ j _ m local.access_key

  access_key_unless_other :
      (span : Span) (m : Attributes × Bool) → lookup j (access_key_unless p span m) ≡ lookup j m.0
  unfolding access_key_unless
  access_key_unless_other span (m, true) = refl
  access_key_unless_other span (m, false) = access_key_other span m

  owner_other : (span : Span) (m : Attributes × Bool) → lookup j (set_owner p span m) ≡ lookup j m.0
  unfolding set_owner
  owner_other span (m, false) = environment_other span m
  owner_other span (m, true) =
      access_key_unless_other span _
      ∙ account_and_region_other span (set_remote_environment p span m)
      ∙ environment_other span m

  -- A local key of the dependency metric stays as the service and the egress operation left it.
  pub dependency_local_key :
      (span : Span) (resource : Attributes)
      → lookup j (generate_dependency_metric_attributes p span resource)
        ≡ lookup j (set_egress_operation p span (set_service p resource []))
  unfolding generate_dependency_metric_attributes set_span_kind_for_dependency
      set_remote_service_and_operation set_remote_resource_type_and_identifier
  dependency_local_key span resource =
      db_user_other span _
      ∙ insert_other _ j _ _ local.kind
      ∙ owner_other span _
      ∙ set_found_other _ _
      ∙ insert_other _ j _ _ local.remote_operation
      ∙ insert_other _ j _ _ local.remote_service
