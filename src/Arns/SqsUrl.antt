-- ===== src/Arns/SqsUrl.antt =====
-- sqs-url-parser.ts. `toLowerCase` is a parameter.
pub mod RoundTrip
use aws_otel_js_instrumentat.Prelude.{
  ℕ, Bool, true, false, not, ◌&&◌, ◌||◌, Option, none, some, List, [], ◌∷◌, Text, codes, ◌==◌,
  text_test, nat_beq, leb, all, is_empty, length, get_elem?, split, replace, starts_with,
  if_present, ◌>>=◌, if◌then◌else◌,
}
use aws_otel_js_instrumentat.Spans.Model.{AttributeValue, as_text}
use aws_otel_js_instrumentat.Arns.Arn.{is_digit, is_account_id}

pub record ParsedSqsUrl : Type 0 where
  pub queue_name : Text
  pub account_id : Text
  pub region : Option Text

-- `/^[a-zA-Z]+$/` on one unit
abbrev pub is_alphabetic : ℕ → Bool
is_alphabetic c = leb 97 c && leb c 122 || leb 65 c && leb c 90

abbrev pub is_queue_unit : ℕ → Bool
is_queue_unit c = nat_beq c 95 || nat_beq c 45 || is_alphabetic c || is_digit c

unfoldable pub is_valid_queue_name : Text → Bool
is_valid_queue_name input = not (is_empty input) && leb (length input) 80 && all is_queue_unit input

unfoldable pub without_protocol : Text → Text
without_protocol url = replace (codes "https://") [] (replace (codes "http://") [] url)

-- The three parts of a URL, where there are three.
unfoldable pub three_parts : List Text → Option (Text × Text × Text)
three_parts (domain ∷ account ∷ queue ∷ []) = some (domain, account, queue)
three_parts [] = none
three_parts (a ∷ []) = none
three_parts (a ∷ b ∷ []) = none
three_parts (a ∷ b ∷ c ∷ d ∷ rest) = none

queue_if_valid : Text × Text × Text → Option Text
queue_if_valid (domain, account, queue) =
    if is_account_id account && is_valid_queue_name queue then some queue else none

unfoldable pub get_queue_name : Option AttributeValue → Option Text
unfolding queue_if_valid
get_queue_name value = do
  url ← as_text value
  parts ← three_parts (split (nat_beq 47) (without_protocol url))
  queue_if_valid parts

region_of : List Text → Option Text
region_of domain_parts = if nat_beq (length domain_parts) 4 then get_elem? domain_parts 1 else none

module _ (to_lower_case : Text → Text) where
  unfoldable pub parsed : Text × Text × Text → Option ParsedSqsUrl
  unfolding region_of
  parsed (domain, account, queue) =
      if starts_with (codes "sqs") (to_lower_case domain)
        && is_account_id account
        && is_valid_queue_name queue
      then some (record {
        queue_name = queue;
        account_id = account;
        region = region_of (split (nat_beq 46) domain);
      })
      else none

  unfoldable pub parse_url : Text → Option ParsedSqsUrl
  parse_url url = do parts ← three_parts (split (nat_beq 47) (without_protocol url)); parsed parts

  unfoldable pub get_account_id : Option AttributeValue → Option Text
  get_account_id value = do
    url ← as_text value
    parsed_url ← parse_url url
    some parsed_url.account_id

  unfoldable pub get_region : Option AttributeValue → Option Text
  get_region value = do url ← as_text value; parsed_url ← parse_url url; parsed_url.region
