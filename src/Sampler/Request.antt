-- ===== src/Sampler/Request.antt =====
-- `matches` of sampler/sampling-rule-applier.ts: the attributes of a request that a rule is tested on.
-- The names of the semantic conventions, and the path of a URL, are parameters.
mod Tests
pub mod Accepted
use aws_otel_js_instrumentat.Prelude.{
  ℕ, Bool, true, false, ◌&&◌, ◌||◌, Option, none, some, List, [], ◌∷◌, String, nat_beq, Testable,
  ◌==◌, string_test, lookup, or_else, includes, ◌>>=◌, if◌then◌else◌,
}
use aws_otel_js_instrumentat.Sampler.Applier.{SamplingRule}
use aws_otel_js_instrumentat.Sampler.Matching.{
  AttributeValue, text, falsy, other, wildcard_match, attribute_match,
}

abbrev pub Attributes : Type 0
Attributes = List (String × AttributeValue)

pub record SemanticConventions : Type 0 where
  pub http_target : String
  pub url_path : String
  pub http_url : String
  pub url_full : String
  pub http_method : String
  pub http_request_method : String
  pub http_host : String
  pub server_address : String
  pub client_address : String
  pub service_name : String
  pub cloud_platform : String
  pub aws_ecs_container_arn : String
  pub aws_ecs_cluster_arn : String
  pub aws_eks_cluster_arn : String
  pub faas_id : String
  pub aws_lambda_invoked_arn : String
  pub aws_lambda : String
  pub aws_elastic_beanstalk : String
  pub aws_ec2 : String
  pub aws_ecs : String
  pub aws_eks : String

is_truthy : Option AttributeValue → Bool
is_truthy none = false
is_truthy (some (text s)) = if s == "" then false else true
is_truthy (some falsy) = false
is_truthy (some other) = true

-- `a || b`
unfoldable pub or_falsy : Option AttributeValue → Option AttributeValue → Option AttributeValue
unfolding is_truthy
or_falsy a b = if is_truthy a then a else b

-- `attributes[name]`, of attributes that may be missing.
unfoldable pub get : String → Option Attributes → Option AttributeValue
get name none = none
get name (some attributes) = lookup name attributes

-- `indexOf('://') > -1`
unfoldable pub has_scheme : List ℕ → Bool
has_scheme units = includes (58 ∷ 47 ∷ 47 ∷ []) units

module _ (names : SemanticConventions) (units : String → List ℕ) (to_lower_case : String → String)
    (pathname : String → Option String) where
  cloud_platform_mapping : List (String × String)
  cloud_platform_mapping =
      (names.aws_lambda, "AWS::Lambda::Function")
      ∷ (names.aws_elastic_beanstalk, "AWS::ElasticBeanstalk::Environment")
      ∷ (names.aws_ec2, "AWS::EC2::Instance")
      ∷ (names.aws_ecs, "AWS::ECS::Container")
      ∷ (names.aws_eks, "AWS::EKS::Container")
      ∷ []

  text_or_none : Option String → Option AttributeValue
  text_or_none none = none
  text_or_none (some s) = some (text s)

  type_of_platform : Option AttributeValue → Option AttributeValue
  unfolding cloud_platform_mapping text_or_none
  type_of_platform (some (text platform)) = text_or_none (lookup platform cloud_platform_mapping)
  type_of_platform _ = none

  unfoldable pub service_type_of : Option Attributes → Option AttributeValue
  unfolding get type_of_platform
  service_type_of resource = type_of_platform (get names.cloud_platform resource)

  unfoldable pub service_name_of : Option Attributes → Option AttributeValue
  unfolding get or_falsy
  service_name_of none = none
  service_name_of (some resource) = or_falsy (lookup names.service_name resource) (some (text ""))

  -- `attributes[...]` throws on attributes that are missing: none.
  unfoldable pub get_invoked_arn : Option Attributes → Option (Option AttributeValue)
  get_invoked_arn none = none
  get_invoked_arn (some attributes) = some (lookup names.aws_lambda_invoked_arn attributes)

  unfoldable pub get_lambda_arn : Attributes → Option Attributes → Option (Option AttributeValue)
  unfolding is_truthy get_invoked_arn
  get_lambda_arn resource attributes =
      if is_truthy (lookup names.faas_id resource)
      then some (lookup names.faas_id resource)
      else get_invoked_arn attributes

  is_lambda : Option AttributeValue → Bool
  is_lambda (some (text platform)) = platform == names.aws_lambda
  is_lambda _ = false

  unfoldable pub lambda_if_missing :
      Attributes → Option Attributes → Option AttributeValue → Option (Option AttributeValue)
  unfolding get_lambda_arn is_lambda
  lambda_if_missing resource attributes (some arn) = some (some arn)
  lambda_if_missing resource attributes none =
      if is_lambda (lookup names.cloud_platform resource)
      then get_lambda_arn resource attributes
      else some none

  unfoldable pub get_arn : Option Attributes → Option Attributes → Option (Option AttributeValue)
  unfolding or_falsy lambda_if_missing
  get_arn none attributes = some none
  get_arn (some resource) attributes = lambda_if_missing resource attributes (
      or_falsy
        (or_falsy (lookup names.aws_ecs_container_arn resource)
          (lookup names.aws_ecs_cluster_arn resource))
        (lookup names.aws_eks_cluster_arn resource))

  unfoldable pub path_of : Option String → Option (Option AttributeValue)
  path_of none = none
  path_of (some path) = some (some (text (if path == "" then "/" else path)))

  -- The target of a request without one; `new URL(httpUrl)` throws on some texts: none.
  unfoldable pub target_of_url : Option AttributeValue → Option (Option AttributeValue)
  unfolding has_scheme path_of
  target_of_url none = some (some (text "/"))
  target_of_url (some (text url)) =
      if has_scheme (units url) then path_of (pathname url) else some none
  target_of_url (some falsy) = some none
  target_of_url (some other) = some none

  unfoldable pub target_or_url :
      Option AttributeValue → Option AttributeValue → Option (Option AttributeValue)
  unfolding target_of_url
  target_or_url (some target) url = some (some target)
  target_or_url none url = target_of_url url

  unfoldable pub http_target_of : Option Attributes → Option (Option AttributeValue)
  unfolding target_or_url get or_else
  http_target_of attributes =
      target_or_url (or_else (get names.http_target attributes) (get names.url_path attributes))
        (or_else (get names.http_url attributes) (get names.url_full attributes))

  unfoldable pub http_method_of : Option Attributes → Option AttributeValue
  unfolding get or_else
  http_method_of attributes =
      or_else (get names.http_method attributes) (get names.http_request_method attributes)

  unfoldable pub http_host_of : Option Attributes → Option AttributeValue
  unfolding get or_else
  http_host_of attributes =
      or_else (or_else (get names.http_host attributes) (get names.server_address attributes))
        (get names.client_address attributes)

  unfoldable pub wildcard : String → Option AttributeValue → Bool
  wildcard pattern_text value = wildcard_match units to_lower_case (some pattern_text) value

  unfoldable pub all_match :
      SamplingRule
      → Option Attributes
      → Option Attributes
      → Option AttributeValue
      → Option AttributeValue
      → Bool
  unfolding wildcard http_host_of http_method_of service_name_of service_type_of
  all_match rule attributes resource http_target resource_arn =
      attribute_match (wildcard_match units to_lower_case) attributes rule.attributes
      && wildcard rule.host (http_host_of attributes)
      && wildcard rule.http_method (http_method_of attributes)
      && wildcard rule.service_name (service_name_of resource)
      && wildcard rule.url_path http_target
      && wildcard rule.service_type (service_type_of resource)
      && wildcard rule.resource_arn resource_arn

  unfoldable pub matches : SamplingRule → Option Attributes → Option Attributes → Option Bool
  unfolding get_arn http_target_of all_match
  matches rule attributes resource = do
    resource_arn ← get_arn resource attributes
    http_target ← http_target_of attributes
    some (all_match rule attributes resource http_target resource_arn)
