-- ===== src/Spans/Operation.antt =====
-- aws-span-processing-util.ts: the operation of a span.
pub mod Parts
pub mod Internal
use aws_otel_js_instrumentat.Prelude.{
  ℕ, Bool, true, false, not, ◌&&◌, ◌||◌, Option, none, some, List, [], ◌∷◌, ◌++◌, String, Text,
  codes, ◌==◌, text_test, nat_beq, split, or_else, is_present, if_present, if◌then◌else◌,
}
use aws_otel_js_instrumentat.Spans.Model.{
  AttributeValue, text, boolean, array, other, Span, Url, Platform, as_text, is_text, to_text, get,
  is_key_present,
}
use aws_otel_js_instrumentat.Spans.Kinds.{should_use_internal_operation}

abbrev pub unknown_operation : Text
unknown_operation = codes "UnknownOperation"

abbrev pub unknown_remote_service : Text
unknown_remote_service = codes "UnknownRemoteService"

abbrev pub unknown_remote_operation : Text
unknown_remote_operation = codes "UnknownRemoteOperation"

abbrev pub internal_operation : Text
internal_operation = codes "InternalOperation"

-- What ends a part of a path: `/`, `?` and `#`.
abbrev pub ends_part : ℕ → Bool
ends_part c = nat_beq c 47 || nat_beq c 63 || nat_beq c 35

unfoldable pub second_part : List Text → Text
second_part [] = codes "/"
second_part (w ∷ []) = codes "/"
second_part (w ∷ v ∷ ws) = codes "/" ++ v

unfoldable pub extract_api_path_value : Text → Text
unfolding second_part
extract_api_path_value [] = codes "/"
extract_api_path_value (c ∷ cs) = second_part (split ends_part (c ∷ cs))

module _ (p : Platform) where
  unfoldable pub get_http_method : Span → Option Text
  get_http_method span =
      as_text (or_else (get span p.names.http_request_method) (get span p.names.http_method))

  unfoldable pub is_valid_operation : Span → Text → Bool
  is_valid_operation span operation =
      if operation == unknown_operation
      then false
      else not (is_text (get_http_method span) operation)

  path_or_empty : Option Url → Option AttributeValue
  path_or_empty none = some (text [])
  path_or_empty (some url) = some (text url.pathname)

  -- `new URL(...)` in a try block.
  path_of_url : Option Text → Option AttributeValue
  unfolding path_or_empty
  path_of_url none = none
  path_of_url (some url) = path_or_empty (p.parse_url url)

  unfoldable pub http_path : Span → Option AttributeValue
  unfolding path_of_url
  http_path span =
      if is_key_present span p.names.http_target
      then get span p.names.http_target
      else if is_key_present span p.names.http_url
      then path_of_url (as_text (get span p.names.http_url))
      else if is_key_present span p.names.url_path
      then get span p.names.url_path
      else if is_key_present span p.names.url_full
      then path_of_url (as_text (get span p.names.url_full))
      else none

  with_method : Option AttributeValue → Text → Text
  with_method none operation = operation
  with_method (some method) operation = to_text method ++ (codes " " ++ operation)

  operation_of_path : Span → Option Text → Text
  unfolding with_method
  operation_of_path span none = unknown_operation
  operation_of_path span (some path) =
      with_method (or_else (get span p.names.http_method) (get span p.names.http_request_method))
        (extract_api_path_value path)

  unfoldable pub generate_ingress_operation : Span → Text
  unfolding operation_of_path
  generate_ingress_operation span = operation_of_path span (as_text (http_path span))

  own_operation : Span → Text
  own_operation span = if should_use_internal_operation span then internal_operation else span.name

  valid_or_generated : Span → Text → Text
  valid_or_generated span operation =
      if is_valid_operation span operation then operation else generate_ingress_operation span

  ingress_operation_in : Option Text → Span → Text
  unfolding own_operation valid_or_generated
  ingress_operation_in (some function_name) span = function_name ++ codes "/FunctionHandler"
  ingress_operation_in none span = valid_or_generated span (own_operation span)

  unfoldable pub get_ingress_operation : Span → Text
  unfolding ingress_operation_in
  get_ingress_operation span = ingress_operation_in p.lambda_function_name span

unfoldable pub get_egress_operation : Span → Option Text
get_egress_operation span =
    if should_use_internal_operation span
    then some internal_operation
    else if_present to_text (get span "aws.local.operation")
