-- ===== src/MetricAttributes/Generator/Complete.antt =====
-- Which attributes a metric has.
use aws_otel_js_instrumentat.Prelude.{
  Bool, Bool-cases, inl, inr, true, false, ◌||◌, [], String, string_test, ◌==◌, lookup,
  lookup-insert, ◌≡◌, refl, arith, ◌∙◌, ap, sym,
}
use aws_otel_js_instrumentat.Spans.Model.{Attributes, Span, Platform}
use aws_otel_js_instrumentat.MetricAttributes.Remote.{remote_service_and_operation}
use aws_otel_js_instrumentat.MetricAttributes.Resource.{
  remote_resource, set_remote_resource_type_and_identifier,
}
use aws_otel_js_instrumentat.MetricAttributes.Generator.{
  set_service, set_ingress_operation, set_egress_operation, set_span_kind_for_service,
  set_span_kind_for_dependency, set_remote_service_and_operation, set_remote_db_user, set_owner,
  generate_service_metric_attributes, generate_dependency_metric_attributes,
}
use aws_otel_js_instrumentat.MetricAttributes.Generator.Keys.{
  has, has-insert, has-insert_other, set_found_keys, set_found_keeps, has-set_remote_db_user,
  IsOwned, owner_keys, owner_IsOwned, owner_without_resource,
}

module _ (p : Platform) where
  -- What stands before the resource is set.
  abbrev called : Span → Attributes → Attributes
  called span resource =
      set_remote_service_and_operation p span
        (set_egress_operation p span (set_service p resource []))

  called_keys :
      (span : Span) (resource : Attributes) (j : String)
      → has j (called span resource) ≡ (
          "aws.remote.operation" == j
          || ("aws.remote.service" == j
              || ("aws.local.operation" == j || ("aws.local.service" == j || has j []))))
  unfolding set_remote_service_and_operation set_egress_operation set_service
  called_keys span resource j =
      has-insert "aws.remote.operation" j _ _
      ∙ ap (λ (b : Bool). "aws.remote.operation" == j || b)
          (has-insert "aws.remote.service" j _ _
            ∙ ap (λ (b : Bool). "aws.remote.service" == j || b)
                (has-insert "aws.local.operation" j _ _
                  ∙ ap (λ (b : Bool). "aws.local.operation" == j || b)
                      (has-insert "aws.local.service" j _ [])))

  -- What follows the owner sets two keys more.
  has_after_owner :
      (span : Span) (m : Attributes) (j : String)
      → "aws.span.kind" == j ≡ false
      → "aws.remote.db.user" == j ≡ false
      → has j (set_remote_db_user p span (set_span_kind_for_dependency p span m)) ≡ has j m
  unfolding set_span_kind_for_dependency
  has_after_owner span m j k u =
      has-set_remote_db_user p span _ j u ∙ has-insert_other "aws.span.kind" j _ m k

  abbrev with_resource : Span → Attributes → Attributes × Bool
  with_resource span resource =
      set_remote_resource_type_and_identifier p span
        (remote_service_and_operation p span).attribution (called span resource)

  -- A key of the resource stays as the resource left it.
  resource_key :
      (span : Span) (resource : Attributes) (j : String)
      → "aws.span.kind" == j ≡ false
      → "aws.remote.db.user" == j ≡ false
      → "aws.remote.environment" == j ≡ false
      → "aws.remote.resource.account.id" == j ≡ false
      → "aws.remote.resource.region" == j ≡ false
      → "aws.remote.resource.account.access_key" == j ≡ false
      → has j (generate_dependency_metric_attributes p span resource)
        ≡ has j (with_resource span resource).0
  unfolding generate_dependency_metric_attributes
  resource_key span resource j s u e a g k =
      has_after_owner span _ j s u ∙ owner_keys p span (with_resource span resource) j e a g k

  set_found_of :
      (span : Span) (resource : Attributes)
      → (has "aws.remote.resource.type" (with_resource span resource).0
          ≡ (with_resource span resource).1)
        × (has "aws.remote.resource.identifier" (with_resource span resource).0
            ≡ (with_resource span resource).1)
        × (has "aws.remote.resource.cfn.primary.identifier" (with_resource span resource).0
            ≡ (with_resource span resource).1)
        × (has "aws.remote.resource.account.id" (with_resource span resource).0 ≡ false)
        × (has "aws.remote.resource.account.access_key" (with_resource span resource).0 ≡ false)
  unfolding set_remote_resource_type_and_identifier lookup
  set_found_of span resource =
      let m = called span resource in
      let found = remote_resource p span (remote_service_and_operation p span).attribution in
      let (t, i, c, a, k) = set_found_keys found m in
      (
        ground (arith, t, called_keys span resource "aws.remote.resource.type"),
        ground (arith, i, called_keys span resource "aws.remote.resource.identifier"),
        ground (arith, c, called_keys span resource "aws.remote.resource.cfn.primary.identifier"),
        ground (arith, a, called_keys span resource "aws.remote.resource.account.id"),
        ground (arith, k, called_keys span resource "aws.remote.resource.account.access_key"),
      )

  kinded-IsOwned :
      (span : Span) (m : Attributes)
      → IsOwned m
      → IsOwned (set_remote_db_user p span (set_span_kind_for_dependency p span m))
  kinded-IsOwned span m o = λ h.
      let (region, key) =
        o (sym (has_after_owner span m "aws.remote.resource.account.id" refl refl) ∙ h) in
      (
        has_after_owner span m "aws.remote.resource.region" refl refl ∙ region,
        has_after_owner span m "aws.remote.resource.account.access_key" refl refl ∙ key,
      )

  generated-IsOwned :
      (span : Span) (resource : Attributes)
      → IsOwned (generate_dependency_metric_attributes p span resource)
  unfolding generate_dependency_metric_attributes
  generated-IsOwned span resource =
      let (t, i, c, a, k) = set_found_of span resource in
      kinded-IsOwned span (set_owner p span (with_resource span resource))
        (owner_IsOwned p span (with_resource span resource) a k)

  account_needs_resource :
      (span : Span) (resource : Attributes)
      → has "aws.remote.resource.account.id" (generate_dependency_metric_attributes p span resource)
        ≡ true
      → (with_resource span resource).1 ≡ true
  unfolding generate_dependency_metric_attributes
  account_needs_resource span resource h = elim (Bool-cases (with_resource span resource).1) [
    | inl b ↦ b
    | inr b ↦
        let (t, i, c, a, k) = set_found_of span resource in
        absurd (
          ground (
            arith,
            a,
            has_after_owner span (set_owner p span (with_resource span resource))
                "aws.remote.resource.account.id" refl refl,
            owner_without_resource p span (with_resource span resource) b,
          ))
  ]

  -- The resource of a dependency metric is whole or absent: its type, its identifier and its primary
  -- identifier are set together. Its account is set only with a resource, and with it the region
  -- and no access key.
  pub dependency_resource_lem :
      (span : Span) (resource : Attributes)
      → let g = generate_dependency_metric_attributes p span resource in
        (has "aws.remote.resource.identifier" g ≡ has "aws.remote.resource.type" g)
        × (has "aws.remote.resource.cfn.primary.identifier" g ≡ has "aws.remote.resource.type" g)
        × IsOwned g
        × (has "aws.remote.resource.account.id" g ≡ true → has "aws.remote.resource.type" g ≡ true)
  dependency_resource_lem span resource =
      let r = with_resource span resource in
      let (t, i, c, a, k) = set_found_of span resource in
      let type_key =
        resource_key span resource "aws.remote.resource.type" refl refl refl refl refl refl in
      (
        resource_key span resource "aws.remote.resource.identifier" refl refl refl refl refl refl
            ∙ i
            ∙ sym (type_key ∙ t),
        resource_key span resource "aws.remote.resource.cfn.primary.identifier" refl refl refl refl
              refl refl
            ∙ c
            ∙ sym (type_key ∙ t),
        generated-IsOwned span resource,
        λ h. type_key ∙ t ∙ account_needs_resource span resource h,
      )

  -- A key that is set before the resource is there in the end.
  called_key :
      (span : Span) (resource : Attributes) (j : String)
      → has j (called span resource) ≡ true
      → has j (with_resource span resource).0 ≡ true
  unfolding set_remote_resource_type_and_identifier
  called_key span resource j h = set_found_keeps _ (called span resource) j h

  kind_present :
      (span : Span) (resource : Attributes)
      → has "aws.span.kind" (generate_dependency_metric_attributes p span resource) ≡ true
  unfolding generate_dependency_metric_attributes set_span_kind_for_dependency
  kind_present span resource =
      has-set_remote_db_user p span _ "aws.span.kind" refl ∙ simp lookup-insert

  -- A dependency metric always has a local service and operation, a remote service and operation, and
  -- a kind; a service metric a local service and operation, and a kind.
  pub generated_keys :
      (span : Span) (resource : Attributes)
      → let d = generate_dependency_metric_attributes p span resource in
        let s = generate_service_metric_attributes p span resource in
        (has "aws.local.service" d ≡ true)
        × (has "aws.local.operation" d ≡ true)
        × (has "aws.remote.service" d ≡ true)
        × (has "aws.remote.operation" d ≡ true)
        × (has "aws.span.kind" d ≡ true)
        × (has "aws.local.service" s ≡ true)
        × (has "aws.local.operation" s ≡ true)
        × (has "aws.span.kind" s ≡ true)
  unfolding generate_service_metric_attributes set_span_kind_for_service set_ingress_operation
      set_service
  generated_keys span resource = (
    resource_key span resource "aws.local.service" refl refl refl refl refl refl
        ∙ called_key span resource "aws.local.service"
            (called_keys span resource "aws.local.service"),
    resource_key span resource "aws.local.operation" refl refl refl refl refl refl
        ∙ called_key span resource "aws.local.operation"
            (called_keys span resource "aws.local.operation"),
    resource_key span resource "aws.remote.service" refl refl refl refl refl refl
        ∙ called_key span resource "aws.remote.service"
            (called_keys span resource "aws.remote.service"),
    resource_key span resource "aws.remote.operation" refl refl refl refl refl refl
        ∙ called_key span resource "aws.remote.operation"
            (called_keys span resource "aws.remote.operation"),
    kind_present span resource,
    simp lookup-insert,
    simp lookup-insert,
    simp lookup-insert,
  )
