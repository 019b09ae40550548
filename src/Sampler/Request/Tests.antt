-- ===== src/Sampler/Request/Tests.antt =====
-- `matches` of sampler/sampling-rule-applier.ts on small requests.
use mathlib.Core.Path.{◌≡◌, refl}
use mathlib.Core.Logic.{◌↔◌}
use aws_otel_js_instrumentat.Prelude.{
  includes, starts_with, or_else, ℕ, true, Option, none, some, List, [], ◌∷◌, String, ◌==◌,
  if◌then◌else◌, string_test, has_key, lookup,
}
use aws_otel_js_instrumentat.Sampler.Applier.{SamplingRule}
use aws_otel_js_instrumentat.Sampler.Matching.{text}
use aws_otel_js_instrumentat.Sampler.Request.{
  has_scheme, SemanticConventions, Attributes, get, matches, get_arn, lambda_if_missing,
  http_target_of, target_or_url, target_of_url, path_of, http_method_of, http_host_of,
  service_name_of, service_type_of,
}
use aws_otel_js_instrumentat.Sampler.Request.Accepted.{
  IsAccepted, HasAttributes, IsRefused, matches_lem, matches-throws,
}

abbrev names : SemanticConventions
names = record {
  http_target = "http.target";
  url_path = "url.path";
  http_url = "http.url";
  url_full = "url.full";
  http_method = "http.method";
  http_request_method = "http.request.method";
  http_host = "http.host";
  server_address = "server.address";
  client_address = "client.address";
  service_name = "service.name";
  cloud_platform = "cloud.platform";
  aws_ecs_container_arn = "aws.ecs.container.arn";
  aws_ecs_cluster_arn = "aws.ecs.cluster.arn";
  aws_eks_cluster_arn = "aws.eks.cluster.arn";
  faas_id = "faas.id";
  aws_lambda_invoked_arn = "aws.lambda.invoked_arn";
  aws_lambda = "aws_lambda";
  aws_elastic_beanstalk = "aws_elastic_beanstalk";
  aws_ec2 = "aws_ec2";
  aws_ecs = "aws_ecs";
  aws_eks = "aws_eks";
}

-- The code units of the texts of this file.
abbrev units : String → List ℕ
units s =
    if s == "c*"
    then 99 ∷ 42 ∷ []
    else if s == "cart"
    then 99 ∷ 97 ∷ 114 ∷ 116 ∷ []
    else if s == "/c?"
    then 47 ∷ 99 ∷ 63 ∷ []
    else if s == "/c1"
    then 47 ∷ 99 ∷ 49 ∷ []
    else if s == "a://b/c1"
    then 97 ∷ 58 ∷ 47 ∷ 47 ∷ 98 ∷ 47 ∷ 99 ∷ 49 ∷ []
    else if s == "a://"
    then 97 ∷ 58 ∷ 47 ∷ 47 ∷ []
    else []

abbrev same_case : String → String
same_case s = s

-- Refuses all but one URL.
abbrev pathname : String → Option String
pathname s = if s == "a://b/c1" then some "/c1" else none

abbrev rule : SamplingRule
rule = record {
  rule_name = "cart";
  rule_arn = none;
  priority = 1;
  reservoir_size = 1;
  fixed_rate = 50000;
  service_name = "c*";
  service_type = "*";
  host = "*";
  http_method = "*";
  url_path = "/c?";
  resource_arn = "*";
  version = 1;
  attributes = some (("store", "c*") ∷ []);
}

abbrev attributes : Attributes
attributes = ("url.full", text "a://b/c1") ∷ ("store", text "cart") ∷ []

abbrev resource : Attributes
resource = ("service.name", text "cart") ∷ []

matches_lem_example :
    (matches names units same_case pathname rule (some attributes) (some resource) ≡ some true) ↔ (
      HasAttributes names units same_case pathname (some attributes) rule.attributes
      × IsAccepted names units same_case pathname rule.host
          (http_host_of names units same_case pathname (some attributes))
      × IsAccepted names units same_case pathname rule.http_method
          (http_method_of names units same_case pathname (some attributes))
      × IsAccepted names units same_case pathname rule.service_name
          (service_name_of names units same_case pathname (some resource))
      × IsAccepted names units same_case pathname rule.url_path (some (text "/c1"))
      × IsAccepted names units same_case pathname rule.service_type
          (service_type_of names units same_case pathname (some resource))
      × IsAccepted names units same_case pathname rule.resource_arn none)
unfolding has_key lookup get or_else includes starts_with has_scheme http_target_of target_or_url
    target_of_url path_of get_arn lambda_if_missing
matches_lem_example =
    matches_lem names units same_case pathname rule (some attributes) (some resource)
      (some (text "/c1")) none (refl, (refl, tt)) (refl, tt) refl refl

abbrev bad_attributes : Attributes
bad_attributes = ("url.full", text "a://") ∷ []

matches-throws_example :
    (matches names units same_case pathname rule (some bad_attributes) none ≡ none) ↔ (
      (or_else (lookup names.http_target bad_attributes) (lookup names.url_path bad_attributes)
        ≡ none)
      × IsRefused names units same_case pathname
          (or_else (lookup names.http_url bad_attributes) (lookup names.url_full bad_attributes)))
matches-throws_example = matches-throws names units same_case pathname rule bad_attributes none
