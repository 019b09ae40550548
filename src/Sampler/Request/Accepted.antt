-- ===== src/Sampler/Request/Accepted.antt =====
-- `matches` of sampler/sampling-rule-applier.ts: the requests that a rule accepts, and those on which
-- the test throws.
use mathlib.Core.Path.{◌≡◌, refl, subst, sym}
use mathlib.Core.Logic.{◌↔◌, ◌≢◌}
use native.Mathlib.Omega.{arith}
use aws_otel_js_instrumentat.Prelude.{
  or_else, ◌>>=◌, ℕ, true, Option, none, some, List, [], ◌∷◌, String, lookup, IsMap, string_test,
}
use aws_otel_js_instrumentat.Sampler.Applier.{SamplingRule}
use aws_otel_js_instrumentat.Sampler.Matching.{
  AttributeValue, text, falsy, other, wildcard_match, match_value, attribute_match,
}
use aws_otel_js_instrumentat.Sampler.Matching.Wildcards.{IsMatch, wildcard_match_lem}
use aws_otel_js_instrumentat.Sampler.Matching.Attributes.{IsMet, attribute_match_lem}
use aws_otel_js_instrumentat.Sampler.Request.{
  SemanticConventions, Attributes, wildcard, all_match, matches, get_arn, http_target_of,
  http_method_of, http_host_of, service_name_of, service_type_of, target_of_url, path_of,
  get_invoked_arn, get_lambda_arn, lambda_if_missing, target_or_url, get, has_scheme,
}

-- Each key at most once, where there are attributes.
abbrev pub IsKeyed {ℓ} : {V : Type ℓ} → Option (List (String × V)) → Type 0
IsKeyed none = Unit
IsKeyed (some entries) = IsMap entries

both_or_none :
    {A B C : Type 0} (a : Option A) (b : Option B) (f : A → B → C)
    → a ≢ none
    → ((do x ← a; y ← b; some (f x y)) ≡ none) ↔ (b ≡ none)
both_or_none none b f h = ground arith
both_or_none (some x) none f h = (λ q. refl, λ q. refl)
both_or_none (some x) (some y) f h = ground arith

module _ (names : SemanticConventions) (units : String → List ℕ) (to_lower_case : String → String)
    (pathname : String → Option String) where
  -- Only `*` accepts a value that is not a text.
  abbrev pub IsAccepted : String → Option AttributeValue → Type 0
  IsAccepted pattern_text (some (text s)) = IsMatch units to_lower_case pattern_text s
  IsAccepted pattern_text (some falsy) = pattern_text ≡ "*"
  IsAccepted pattern_text (some other) = pattern_text ≡ "*"
  IsAccepted pattern_text none = pattern_text ≡ "*"

  -- The attributes of the rule are among those of the request.
  abbrev pub HasAttributes : Option Attributes → Option (List (String × String)) → Type 0
  HasAttributes attributes none = Unit
  HasAttributes none (some rule_attributes) = rule_attributes ≡ []
  HasAttributes (some attributes) (some rule_attributes) =
      IsMet (wildcard_match units to_lower_case) attributes rule_attributes

  wildcard_iff :
      (p : String) (v : Option AttributeValue)
      → (wildcard names units to_lower_case pathname p v ≡ true) ↔ IsAccepted p v
  unfolding wildcard wildcard_match match_value
  wildcard_iff p none = ground (arith, string_test.same_iff p "*")
  wildcard_iff p (some falsy) = ground (arith, string_test.same_iff p "*")
  wildcard_iff p (some other) = ground (arith, string_test.same_iff p "*")
  wildcard_iff p (some (text s)) = wildcard_match_lem units to_lower_case p s

  attribute_match_iff :
      (xs : Option Attributes) (rs : Option (List (String × String)))
      → IsKeyed xs
      → IsKeyed rs
      → (attribute_match (wildcard_match units to_lower_case) xs rs ≡ true) ↔ HasAttributes xs rs
  unfolding attribute_match
  attribute_match_iff xs none m n = (λ h. tt, λ h. refl)
  attribute_match_iff none (some []) m n = (λ h. refl, λ h. refl)
  attribute_match_iff none (some (r ∷ rs)) m n = ground arith
  attribute_match_iff (some xs) (some rs) m n =
      attribute_match_lem (wildcard_match units to_lower_case) xs rs m n

  -- Where the target of a request and the resource ARN are found without an exception, and no key
  -- stands twice, a rule matches exactly when each of its attributes is among those of the request
  -- with an accepted value, and the host, the method, the service name, the target, the service type
  -- and the ARN are each accepted by the rule's pattern for them.
  pub matches_lem :
      (rule : SamplingRule) (attributes resource : Option Attributes)
      (http_target resource_arn : Option AttributeValue)
      → IsKeyed attributes
      → IsKeyed rule.attributes
      → http_target_of names units to_lower_case pathname attributes ≡ some http_target
      → get_arn names units to_lower_case pathname resource attributes ≡ some resource_arn
      → (matches names units to_lower_case pathname rule attributes resource ≡ some true) ↔ (
          HasAttributes attributes rule.attributes
          × IsAccepted rule.host (http_host_of names units to_lower_case pathname attributes)
          × IsAccepted rule.http_method
              (http_method_of names units to_lower_case pathname attributes)
          × IsAccepted rule.service_name
              (service_name_of names units to_lower_case pathname resource)
          × IsAccepted rule.url_path http_target
          × IsAccepted rule.service_type
              (service_type_of names units to_lower_case pathname resource)
          × IsAccepted rule.resource_arn resource_arn)
  unfolding matches all_match
  matches_lem rule attributes resource target arn m n t a = ground (
    arith,
    attribute_match_iff attributes rule.attributes m n,
    wildcard_iff rule.host (http_host_of names units to_lower_case pathname attributes),
    wildcard_iff rule.http_method (http_method_of names units to_lower_case pathname attributes),
    wildcard_iff rule.service_name (service_name_of names units to_lower_case pathname resource),
    wildcard_iff rule.url_path target,
    wildcard_iff rule.service_type (service_type_of names units to_lower_case pathname resource),
    wildcard_iff rule.resource_arn arn,
  )

  get_arn_returns :
      (resource : Option Attributes) (xs : Attributes)
      → get_arn names units to_lower_case pathname resource (some xs) ≢ none
  unfolding get_arn lambda_if_missing get_lambda_arn get_invoked_arn
  get_arn_returns none xs h = ground arith
  get_arn_returns (some resource) xs h = ground arith

  -- A URL with a scheme that `new URL` refuses.
  abbrev pub IsRefused : Option AttributeValue → Type 0
  IsRefused url =
      (s : String) × (url ≡ some (text s)) × (has_scheme (units s) ≡ true) × (pathname s ≡ none)

  path_of-none :
      (path : Option String) → path_of names units to_lower_case pathname path ≡ none → path ≡ none
  unfolding path_of
  path_of-none none h = refl
  path_of-none (some path) h = ground arith

  target_of_url-IsRefused :
      (url : Option AttributeValue)
      → target_of_url names units to_lower_case pathname url ≡ none
      → IsRefused url
  unfolding target_of_url
  target_of_url-IsRefused none h = ground arith
  target_of_url-IsRefused (some falsy) h = ground arith
  target_of_url-IsRefused (some other) h = ground arith
  target_of_url-IsRefused (some (text s)) h =
      (s, refl, ground arith, path_of-none (pathname s) (ground arith))

  IsRefused-target_of_url :
      (url : Option AttributeValue)
      → IsRefused url
      → target_of_url names units to_lower_case pathname url ≡ none
  unfolding target_of_url path_of
  IsRefused-target_of_url url (s, e, scheme, path) =
      subst (λ u. target_of_url names units to_lower_case pathname u ≡ none) (sym e) (ground arith)

  target_or_url-none :
      (target url : Option AttributeValue)
      → (target_or_url names units to_lower_case pathname target url ≡ none)
        ↔ ((target ≡ none) × IsRefused url)
  unfolding target_or_url target_of_url path_of
  target_or_url-none (some target) url = ground arith
  target_or_url-none none url = (
    λ h. (refl, target_of_url-IsRefused url h),
    λ (_, refused). IsRefused-target_of_url url refused,
  )

  -- With attributes, the test throws exactly when the request has neither of the two targets, and a
  -- URL with a scheme that `new URL` refuses.
  pub matches-throws :
      (rule : SamplingRule) (xs : Attributes) (resource : Option Attributes)
      → (matches names units to_lower_case pathname rule (some xs) resource ≡ none) ↔ (
          (or_else (lookup names.http_target xs) (lookup names.url_path xs) ≡ none)
          × IsRefused (or_else (lookup names.http_url xs) (lookup names.url_full xs)))
  unfolding matches http_target_of get
  matches-throws rule xs resource = ground (
    arith,
    both_or_none (get_arn names units to_lower_case pathname resource (some xs))
        (http_target_of names units to_lower_case pathname (some xs))
        (λ arn target.
          all_match names units to_lower_case pathname rule (some xs) resource target arn)
        (get_arn_returns resource xs),
    target_or_url-none (or_else (lookup names.http_target xs) (lookup names.url_path xs))
        (or_else (lookup names.http_url xs) (lookup names.url_full xs)),
  )
