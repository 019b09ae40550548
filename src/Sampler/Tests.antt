-- ===== src/Sampler/Tests.antt =====
-- Runs of the sampler (sampler/) on small inputs.
use mathlib.Core.Logic.{◌↔◌}
use aws_otel_js_instrumentat.Prelude.{
  ℕ, ◌≤◌, Bool, true, none, some, List, [], ◌∷◌, String, ◌==◌, if◌then◌else◌, string_test, has_key,
  ◌≡◌, refl,
}
use aws_otel_js_instrumentat.Sampler.Reservoir.{RateLimiter}
use aws_otel_js_instrumentat.Sampler.Applier.{SamplingRule, SamplingRuleApplier, SamplingTarget}
use aws_otel_js_instrumentat.Sampler.Applier.Counts.{
  Event, request, report, all_requests, requests, all_samples, sampled, all_borrows,
  reports_count_decisions,
}
use aws_otel_js_instrumentat.Sampler.Rules.{RuleCache}
use aws_otel_js_instrumentat.Sampler.Matching.{
  AttributeValue, text, other, match_star, match_dot, match_unit, match_pattern, match_text,
  match_value, wildcard_match, attribute_match,
}
use aws_otel_js_instrumentat.Sampler.Matching.Wildcards.{IsMatch, wildcard_match_lem}
use aws_otel_js_instrumentat.Sampler.Matching.Attributes.{IsMet, attribute_match_lem}

abbrev times : List ℕ
times = 5100 ∷ 5600 ∷ 5650 ∷ 6400 ∷ []

abbrev idle_reservoir : RateLimiter
idle_reservoir = record { quota = 2; scaled_wallet_floor = 0 }

-- Samples the traces with one name.
abbrev ratio : ℕ → String → Bool
ratio rate trace_id = trace_id == "4bf9"

abbrev rule : String → ℕ → SamplingRule
rule name priority = record {
  rule_name = name;
  rule_arn = none;
  priority = priority;
  reservoir_size = 1;
  fixed_rate = 50000;
  service_name = "*";
  service_type = "*";
  host = "*";
  http_method = "*";
  url_path = "*";
  resource_arn = "*";
  version = 1;
  attributes = none;
}

abbrev applier : String → ℕ → ℕ → SamplingRuleApplier
applier name priority count = record {
  sampling_rule = rule name priority;
  reservoir = record { quota = 1; scaled_wallet_floor = 0 };
  fixed_rate = 50000;
  statistics = record { request_count = count; sample_count = 0; borrow_count = 0 };
  borrowing_enabled = true;
  reservoir_expiry = 8640000000000000;
}

abbrev events : List Event
events = request 1000 "a" ∷ request 1100 "b" ∷ report ∷ request 1200 "4bf9" ∷ request 2500 "c" ∷ []

reports_count_decisions_example :
    (all_requests ratio (applier "checkout" 1 0) events ≡ requests ratio events)
    × ((all_samples ratio (applier "checkout" 1 0) events
          ≡ sampled ratio (applier "checkout" 1 0) events)
        × (all_borrows ratio (applier "checkout" 1 0) events
            ≤ all_samples ratio (applier "checkout" 1 0) events))
reports_count_decisions_example = reports_count_decisions ratio (applier "checkout" 1 0) events refl

abbrev cache : RuleCache
cache = record {
  rule_appliers = applier "checkout" 1 7 ∷ applier "Default" 9 3 ∷ [];
  last_updated = 0;
}

abbrev news : List SamplingRuleApplier
news = applier "Default" 9 0 ∷ applier "login" 5 0 ∷ applier "checkout" 1 0 ∷ []

abbrev target : String → ℕ → SamplingTarget
target name interval = record {
  rule_name = name;
  fixed_rate = some 10000;
  reservoir_quota = some 3;
  reservoir_quota_ttl = some 60;
  interval = some interval;
}

abbrev targets : List (String × SamplingTarget)
targets =
    ("checkout", target "checkout" 30)
    ∷ ("Default", target "Default" 20)
    ∷ ("other", target "other" 5)
    ∷ []

abbrev matches : SamplingRule → Bool
matches r = r.rule_name == "login"

-- The code units of a text, as far as this file needs them.
abbrev units : String → List ℕ
units s =
    if s == "/api/*"
    then 47 ∷ 97 ∷ 112 ∷ 105 ∷ 47 ∷ 42 ∷ []
    else if s == "/api/v1"
    then 47 ∷ 97 ∷ 112 ∷ 105 ∷ 47 ∷ 118 ∷ 49 ∷ []
    else []

abbrev same_case : String → String
same_case s = s

matches_api : wildcard_match units same_case (some "/api/*") (some (text "/api/v1")) ≡ true
unfolding wildcard_match match_value match_text match_pattern match_star match_dot match_unit
matches_api = refl

wildcard_match_lem_example :
    (wildcard_match units same_case (some "/api/*") (some (text "/api/v1")) ≡ true)
    ↔ IsMatch units same_case "/api/*" "/api/v1"
wildcard_match_lem_example = wildcard_match_lem units same_case "/api/*" "/api/v1"

abbrev request_attributes : List (String × AttributeValue)
request_attributes = ("route", text "/api/v1") ∷ ("retries", other) ∷ []

abbrev rule_attributes : List (String × String)
rule_attributes = ("route", "/api/*") ∷ []

attribute_match_lem_example :
    (attribute_match
        (wildcard_match units same_case)
        (some request_attributes)
        (some rule_attributes)
      ≡ true)
    ↔ IsMet (wildcard_match units same_case) request_attributes rule_attributes
unfolding has_key
attribute_match_lem_example =
    attribute_match_lem (wildcard_match units same_case) request_attributes rule_attributes
      (refl, (refl, tt)) (refl, tt)
