-- ===== src/Arns/Arn.antt =====
-- regional-resource-arn-parser.ts, and `isAccountId` of utils.ts.
pub mod RoundTrip
use aws_otel_js_instrumentat.Prelude.{
  ℕ, Bool, true, false, not, ◌&&◌, Option, none, some, List, [], ◌∷◌, Text, codes, ◌==◌, text_test,
  nat_beq, leb, all, is_empty, length, get_elem?, get_last?, split, replace, if_present, ◌>>=◌,
  if◌then◌else◌,
}
use aws_otel_js_instrumentat.Spans.Model.{AttributeValue, as_text, is_text}

abbrev pub is_digit : ℕ → Bool
is_digit c = leb 48 c && leb c 57

-- `/^\d+$/`
unfoldable pub is_account_id : Text → Bool
is_account_id input = not (is_empty input) && all is_digit input

is_account_id? : Option Text → Bool
is_account_id? none = false
is_account_id? (some input) = is_account_id input

unfoldable pub is_arn : List Text → Bool
unfolding is_account_id?
is_arn parts =
    leb 6 (length parts)
    && is_text (get_elem? parts 0) (codes "arn")
    && is_account_id? (get_elem? parts 4)

parts_of : Text → Option (List Text)
parts_of arn = let parts = split (nat_beq 58) arn in if is_arn parts then some parts else none

unfoldable pub parse_arn : Option AttributeValue → Option (List Text)
unfolding parts_of
parse_arn arn = do t ← as_text arn; parts_of t

unfoldable pub get_account_id : Option AttributeValue → Option Text
get_account_id arn = do parts ← parse_arn arn; get_elem? parts 4

unfoldable pub get_region : Option AttributeValue → Option Text
get_region arn = do parts ← parse_arn arn; get_elem? parts 3

unfoldable pub extract_resource_name_from_arn : Option AttributeValue → Option Text
extract_resource_name_from_arn arn = do parts ← parse_arn arn; get_last? parts

unfoldable pub extract_dynamo_db_table_name_from_arn : Option AttributeValue → Option Text
extract_dynamo_db_table_name_from_arn arn =
    if_present (replace (codes "table/") []) (extract_resource_name_from_arn arn)

unfoldable pub extract_kinesis_stream_name_from_arn : Option AttributeValue → Option Text
extract_kinesis_stream_name_from_arn arn =
    if_present (replace (codes "stream/") []) (extract_resource_name_from_arn arn)

-- `part || undefined`
non_empty : Option Text → Option Text
non_empty none = none
non_empty (some t) = if is_empty t then none else some t

unfoldable pub extract_bedrock_agent_core_resource_id_from_arn : Option AttributeValue → Option Text
unfolding non_empty
extract_bedrock_agent_core_resource_id_from_arn arn = do
  resource_part ← extract_resource_name_from_arn arn
  non_empty (get_last? (split (nat_beq 47) resource_part))
