-- ===== src/MetricAttributes/Generator/Keys.antt =====
-- Which attributes each step of the generator sets.
use aws_otel_js_instrumentat.Prelude.{
  Bool, true, false, ◌&&◌, ◌||◌, Option, none, some, String, Text, string_test, ◌==◌, lookup,
  insert, lookup-insert, is_present, if-cases, ◌≡◌, refl, arith, ◌∙◌,
}
use aws_otel_js_instrumentat.Spans.Model.{
  AttributeValue, text, Attributes, Span, Platform, get, is_key_present,
}
use aws_otel_js_instrumentat.Spans.Kinds.{is_db_span}
use aws_otel_js_instrumentat.MetricAttributes.Callee.{is_lambda_invoke_operation}
use aws_otel_js_instrumentat.MetricAttributes.AgentCore.{Found}
use aws_otel_js_instrumentat.MetricAttributes.Resource.{put, set_found}
use aws_otel_js_instrumentat.MetricAttributes.Generator.{
  put_present, set_account_and_region, set_remote_environment,
  set_remote_resource_account_id_and_region, set_remote_resource_access_key_and_region,
  set_remote_db_user, access_key_unless, set_owner,
}

abbrev pub has : String → Attributes → Bool
has key attributes = is_present (lookup key attributes)

pub has-insert :
    (key j : String) (value : AttributeValue) (m : Attributes)
    → has j (insert key value m) ≡ (key == j || has j m)
has-insert key j value m = ground (arith, lookup-insert key j value m)

pub has-insert_other :
    (key j : String) (value : AttributeValue) (m : Attributes)
    → key == j ≡ false
    → has j (insert key value m) ≡ has j m
has-insert_other key j value m ne = ground (arith, has-insert key j value m)

has-put_present :
    (key j : String) (value : Option AttributeValue) (m : Attributes)
    → has j (put_present key value m) ≡ (key == j && is_present value || has j m)
unfolding put_present
has-put_present key j none m = ground arith
has-put_present key j (some value) m = ground (arith, has-insert key j value m)

-- What of the owner can be set: where the account is, the region is too, and no access key.
abbrev pub IsOwned : Attributes → Type 0
IsOwned m =
    has "aws.remote.resource.account.id" m ≡ true
    → (has "aws.remote.resource.region" m ≡ true)
      × (has "aws.remote.resource.account.access_key" m ≡ false)

-- A resource is set whole or not at all.
pub set_found_keys :
    (found : Found) (m : Attributes)
    → (has "aws.remote.resource.type" (set_found found m).0
        ≡ ((set_found found m).1 || has "aws.remote.resource.type" m))
      × (has "aws.remote.resource.identifier" (set_found found m).0
          ≡ ((set_found found m).1 || has "aws.remote.resource.identifier" m))
      × (has "aws.remote.resource.cfn.primary.identifier" (set_found found m).0
          ≡ ((set_found found m).1 || has "aws.remote.resource.cfn.primary.identifier" m))
      × (has "aws.remote.resource.account.id" (set_found found m).0
          ≡ has "aws.remote.resource.account.id" m)
      × (has "aws.remote.resource.account.access_key" (set_found found m).0
          ≡ has "aws.remote.resource.account.access_key" m)
unfolding set_found
set_found_keys (none, identifier, primary) m = (refl, refl, refl, refl, refl)
set_found_keys (some resource_type, none, primary) m = (refl, refl, refl, refl, refl)
set_found_keys (some resource_type, some identifier, none) m = (
  simp lookup-insert,
  simp lookup-insert,
  simp lookup-insert,
  simp lookup-insert,
  simp lookup-insert,
)
set_found_keys (some resource_type, some identifier, some primary) m = (
  simp lookup-insert,
  simp lookup-insert,
  simp lookup-insert,
  simp lookup-insert,
  simp lookup-insert,
)

insert_keeps :
    (key j : String) (value : AttributeValue) (m : Attributes)
    → has j m ≡ true
    → has j (insert key value m) ≡ true
insert_keeps key j value m h = ground (arith, has-insert key j value m)

-- No key is taken away.
pub set_found_keeps :
    (found : Found) (m : Attributes) (j : String)
    → has j m ≡ true
    → has j (set_found found m).0 ≡ true
unfolding set_found
set_found_keeps (none, identifier, primary) m j h = h
set_found_keeps (some resource_type, none, primary) m j h = h
set_found_keeps (some resource_type, some identifier, none) m j h =
    insert_keeps _ j _ _ (insert_keeps _ j _ _ (insert_keeps _ j _ m h))
set_found_keeps (some resource_type, some identifier, some primary) m j h =
    insert_keeps _ j _ _ (insert_keeps _ j _ _ (insert_keeps _ j _ m h))

module _ (p : Platform) where
  pub has-set_remote_db_user :
      (span : Span) (m : Attributes) (j : String)
      → "aws.remote.db.user" == j ≡ false
      → has j (set_remote_db_user p span m) ≡ has j m
  unfolding set_remote_db_user
  has-set_remote_db_user span m j ne =
      if-cases (λ (n : Attributes). has j n ≡ has j m) (is_db_span p span)
        (λ _. ground (arith, has-put_present "aws.remote.db.user" j (get span p.names.db_user) m))
        (λ _. refl)

  has-set_remote_environment :
      (span : Span) (m : Attributes) (j : String)
      → "aws.remote.environment" == j ≡ false
      → has j (set_remote_environment p span m) ≡ has j m
  unfolding set_remote_environment
  has-set_remote_environment span m j ne =
      if-cases (λ (n : Attributes). has j n ≡ has j m) (is_lambda_invoke_operation p span)
        (λ _. has-insert_other "aws.remote.environment" j _ m ne) (λ _. refl)

has-set_account_and_region :
    (account region : Option Text) (m : Attributes) (j : String)
    → has j (set_account_and_region account region m).0 ≡ (
        (set_account_and_region account region m).1
          && ("aws.remote.resource.account.id" == j || "aws.remote.resource.region" == j)
        || has j m)
unfolding set_account_and_region
has-set_account_and_region none region m j = refl
has-set_account_and_region (some account) none m j = refl
has-set_account_and_region (some account) (some region) m j = ground (
  arith,
  has-insert "aws.remote.resource.account.id" j (text account) m,
  has-insert "aws.remote.resource.region" j (text region)
      (put "aws.remote.resource.account.id" account m),
)

module _ (p : Platform) where
  abbrev account_and_region : Span → Attributes → Attributes × Bool
  account_and_region span m = set_remote_resource_account_id_and_region p span m

  has-account_and_region :
      (span : Span) (m : Attributes) (j : String)
      → has j (account_and_region span m).0 ≡ (
          (account_and_region span m).1
            && ("aws.remote.resource.account.id" == j || "aws.remote.resource.region" == j)
          || has j m)
  unfolding set_remote_resource_account_id_and_region
  has-account_and_region span m j =
      if-cases
        (λ (r : Attributes × Bool). has j r.0 ≡ (
          r.1 && ("aws.remote.resource.account.id" == j || "aws.remote.resource.region" == j)
          || has j m))
        (is_key_present span "aws.sqs.queue.url") (λ _. has-set_account_and_region _ _ m j)
        (λ _. has-set_account_and_region _ _ m j)

  has-access_key_and_region :
      (span : Span) (m : Attributes) (j : String)
      → "aws.remote.resource.region" == j ≡ false
      → "aws.remote.resource.account.access_key" == j ≡ false
      → has j (set_remote_resource_access_key_and_region p span m) ≡ has j m
  unfolding set_remote_resource_access_key_and_region
  has-access_key_and_region span m j r k = ground (
    arith,
    has-put_present "aws.remote.resource.region" j (get span "aws.auth.region") (
        put_present "aws.remote.resource.account.access_key"
          (get span "aws.auth.account.access_key") m),
    has-put_present "aws.remote.resource.account.access_key" j
        (get span "aws.auth.account.access_key") m,
  )

  owner_of :
      (span : Span) (r : Attributes × Bool)
      → has "aws.remote.resource.account.id" r.0 ≡ r.1
      → (r.1 ≡ true → has "aws.remote.resource.region" r.0 ≡ true)
      → has "aws.remote.resource.account.access_key" r.0 ≡ false
      → IsOwned (access_key_unless p span r)
  unfolding access_key_unless
  owner_of span (m, true) a g k = λ h. (g refl, k)
  owner_of span (m, false) a g k = λ h.
      absurd (
        ground (arith, has-access_key_and_region span m "aws.remote.resource.account.id" refl refl))

  access_keys :
      (span : Span) (r : Attributes × Bool) (j : String)
      → "aws.remote.resource.region" == j ≡ false
      → "aws.remote.resource.account.access_key" == j ≡ false
      → has j (access_key_unless p span r) ≡ has j r.0
  unfolding access_key_unless
  access_keys span (m, true) j g k = refl
  access_keys span (m, false) j g k = has-access_key_and_region span m j g k

  pub owner_keys :
      (span : Span) (r : Attributes × Bool) (j : String)
      → "aws.remote.environment" == j ≡ false
      → "aws.remote.resource.account.id" == j ≡ false
      → "aws.remote.resource.region" == j ≡ false
      → "aws.remote.resource.account.access_key" == j ≡ false
      → has j (set_owner p span r) ≡ has j r.0
  unfolding set_owner
  owner_keys span (m, false) j e a g k = has-set_remote_environment p span m j e
  owner_keys span (m, true) j e a g k =
      access_keys span (account_and_region span (set_remote_environment p span m)) j g k
      ∙ ground (
        arith,
        has-account_and_region span (set_remote_environment p span m) j,
        has-set_remote_environment p span m j e,
      )

  pub owner_IsOwned :
      (span : Span) (r : Attributes × Bool)
      → has "aws.remote.resource.account.id" r.0 ≡ false
      → has "aws.remote.resource.account.access_key" r.0 ≡ false
      → IsOwned (set_owner p span r)
  unfolding set_owner
  owner_IsOwned span (m, false) a k = λ h.
      absurd
        (ground (arith, has-set_remote_environment p span m "aws.remote.resource.account.id" refl))
  owner_IsOwned span (m, true) a k =
      let n = set_remote_environment p span m in
      owner_of span (account_and_region span n)
        (ground (
          arith,
          has-account_and_region span n "aws.remote.resource.account.id",
          has-set_remote_environment p span m "aws.remote.resource.account.id" refl,
        ))
        (ground (arith, has-account_and_region span n "aws.remote.resource.region"))
        (ground (
          arith,
          has-account_and_region span n "aws.remote.resource.account.access_key",
          has-set_remote_environment p span m "aws.remote.resource.account.access_key" refl,
        ))

  pub owner_without_resource :
      (span : Span) (r : Attributes × Bool)
      → r.1 ≡ false
      → has "aws.remote.resource.account.id" (set_owner p span r)
        ≡ has "aws.remote.resource.account.id" r.0
  unfolding set_owner
  owner_without_resource span (m, true) h = absurd (ground arith)
  owner_without_resource span (m, false) h =
      has-set_remote_environment p span m "aws.remote.resource.account.id" refl
