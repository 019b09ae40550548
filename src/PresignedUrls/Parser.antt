-- ===== src/PresignedUrls/Parser.antt =====
-- presigned-aws-url-parser.ts and presigned-aws-url.ts.
pub mod Queries
use aws_otel_js_instrumentat.Prelude.{
  ℕ, Bool, true, false, not, ◌&&◌, ◌||◌, Option, none, some, List, [], ◌∷◌, ◌++◌, String, Text,
  codes, ◌==◌, text_test, nat_beq, is_empty, split, starts_with, drop, lookup, insert, or_else,
  get_elem?, ◌>>=◌, if◌then◌else◌,
}
use aws_otel_js_instrumentat.Spans.Model.{Span, Url, Platform, as_text, get}

abbrev pub QueryParameters : Type 0
QueryParameters = List (Text × List Text)

pub record PresignedAwsUrl : Type 0 where
  pub host : Text
  pub path : Text
  pub http_method : Option Text
  pub query_parameters : QueryParameters

unfoldable pub get_first_value : QueryParameters → Text → Option Text
get_first_value query_parameters name = do values ← lookup name query_parameters; get_elem? values 0

non_empty : Option Text → Bool
non_empty none = false
non_empty (some value) = not (is_empty value)

unfoldable pub has_non_empty_value : QueryParameters → Text → Bool
unfolding non_empty
has_non_empty_value query_parameters name = non_empty (get_first_value query_parameters name)

is_algorithm : Option Text → Bool
is_algorithm none = false
is_algorithm (some algorithm) =
    algorithm == codes "AWS4-HMAC-SHA256" || algorithm == codes "AWS4-ECDSA-P256-SHA256"

unfoldable pub is_presigned_sig_v4_request : QueryParameters → Bool
unfolding is_algorithm
is_presigned_sig_v4_request query_parameters =
    is_algorithm (get_first_value query_parameters (codes "X-Amz-Algorithm"))
    && has_non_empty_value query_parameters (codes "X-Amz-Credential")
    && has_non_empty_value query_parameters (codes "X-Amz-Signature")
    && has_non_empty_value query_parameters (codes "X-Amz-Date")
    && has_non_empty_value query_parameters (codes "X-Amz-Expires")
    && has_non_empty_value query_parameters (codes "X-Amz-SignedHeaders")

-- `name=value` before and after the first `=`, the value empty where there is none.
unfoldable pub name_and_value : Text → Text × Text
name_and_value [] = ([], [])
name_and_value (c ∷ cs) =
    let (name, value) = name_and_value cs in if nat_beq c 61 then ([], cs) else (c ∷ name, value)

add_value : Text → Text → Option (List Text) → QueryParameters → QueryParameters
add_value name value none parameters = insert name (value ∷ []) parameters
add_value name value (some values) parameters = insert name (values ++ value ∷ []) parameters

-- `search.replace(/^\?/, '')`
without_question_mark : Text → Text
without_question_mark search = if starts_with (codes "?") search then drop 1 search else search

module _ (p : Platform) where
  decoded : Text → Option Text → Text
  decoded value none = value
  decoded value (some result) = result

  -- `decodeURIComponent`, or the text itself where that throws.
  unfoldable pub decode : Text → Text
  unfolding decoded
  decode value = decoded value (p.decode_uri_component value)

  unfoldable pub add_parameters : List Text → QueryParameters → QueryParameters
  unfolding add_value
  add_parameters [] parameters = parameters
  add_parameters (pair ∷ pairs) parameters =
      let (name, value) = name_and_value pair in
      add_parameters pairs
        (add_value (decode name) (decode value) (lookup (decode name) parameters) parameters)

  unfoldable pub parse_query_parameters : Text → QueryParameters
  parse_query_parameters raw_query =
      if is_empty raw_query then [] else add_parameters (split (nat_beq 38) raw_query) []

  presigned_if_signed : Url → Option Text → QueryParameters → Option PresignedAwsUrl
  presigned_if_signed url http_method query_parameters =
      if is_presigned_sig_v4_request query_parameters
      then some (record {
        host = url.hostname;
        path = if is_empty url.pathname then codes "/" else url.pathname;
        http_method = http_method;
        query_parameters = query_parameters;
      })
      else none

  of_url : Url → Option Text → Option PresignedAwsUrl
  unfolding presigned_if_signed without_question_mark
  of_url url http_method =
      if is_empty url.hostname
      then none
      else presigned_if_signed url http_method
          (parse_query_parameters (without_question_mark url.search))

  unfoldable pub parse : Option Text → Option Text → Option PresignedAwsUrl
  unfolding of_url
  parse none http_method = none
  parse (some url) http_method =
      let presigned = (do parsed ← p.parse_url url; of_url parsed http_method) in
      if is_empty url then none else presigned

  get_string_attribute : Span → String → String → Option Text
  get_string_attribute span primary_key fallback_key =
      or_else (as_text (get span primary_key)) (as_text (get span fallback_key))

  unfoldable pub parse_span : Span → Option PresignedAwsUrl
  unfolding get_string_attribute
  parse_span span =
      parse (get_string_attribute span "url.full" "http.url")
        (get_string_attribute span "http.request.method" "http.method")
