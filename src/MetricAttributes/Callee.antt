-- ===== src/MetricAttributes/Callee.antt =====
-- aws-metric-attribute-generator.ts: names of the callee from one kind of attributes each
-- (`getRemoteService`, `getDBStatementRemoteOperation`, `normalizeRemoteServiceName`,
-- `generateRemoteService`, `generateRemoteOperation`).
use aws_otel_js_instrumentat.Prelude.{
  ℕ, Bool, false, not, ◌&&◌, ◌||◌, Option, none, some, List, [], ◌∷◌, ◌++◌, String, Text, codes,
  ◌==◌, text_test, nat_beq, leb, length, take, drop, is_empty, trim_start, starts_with, lookup,
  get_last?, if_present, if◌then◌else◌,
}
use aws_otel_js_instrumentat.Spans.Model.{
  AttributeValue, Span, Url, Platform, as_text, is_text, is_truthy, to_text, get, is_key_present,
}
use aws_otel_js_instrumentat.Spans.Kinds.{is_aws_sdk_span}
use aws_otel_js_instrumentat.Spans.Operation.{
  extract_api_path_value, unknown_remote_service, unknown_remote_operation,
}

text_or : Text → Option Text → Text
text_or default none = default
text_or default (some t) = t

unfoldable pub get_remote_service : Span → String → Text
unfolding text_or
get_remote_service span key = text_or unknown_remote_service (as_text (get span key))

unfoldable pub get_remote_operation : Span → String → Text
unfolding text_or
get_remote_operation span key = text_or unknown_remote_operation (as_text (get span key))

-- `\w`
is_word : ℕ → Bool
is_word c = leb 97 c && leb c 122 || leb 65 c && leb c 90 || leb 48 c && leb c 57 || nat_beq c 95

is_word? : Option ℕ → Bool
is_word? none = false
is_word? (some c) = is_word c

head? : Text → Option ℕ
head? [] = none
head? (c ∷ cs) = some c

-- `\b` after a keyword
is_boundary : Option ℕ → Option ℕ → Bool
unfolding is_word? is_word
is_boundary before after = if is_word? before then not (is_word? after) else is_word? after

unfoldable pub matches_keyword : Text → Text → Bool
unfolding is_boundary is_word? is_word head?
matches_keyword keyword statement =
    starts_with keyword statement
    && is_boundary (get_last? keyword) (head? (drop (length keyword) statement))

-- The match of `^(?:...|...)\b`.
unfoldable pub first_keyword : List Text → Text → Option Text
first_keyword [] statement = none
first_keyword (keyword ∷ keywords) statement =
    if matches_keyword keyword statement then some keyword else first_keyword keywords statement

abbrev max_keyword_length : ℕ
max_keyword_length = 27

-- `'\d+'` appended to an address.
with_port : Option AttributeValue → Text → Text
with_port none address = address
with_port (some port) address = address ++ (codes ":" ++ to_text port)

host_and_port : Url → Text → Text
host_and_port url default =
    if is_empty url.hostname
    then default
    else if is_empty url.port
    then url.hostname
    else url.hostname ++ (codes ":" ++ url.port)

service_of_url : Option Url → Text
unfolding host_and_port
service_of_url none = unknown_remote_service
service_of_url (some url) = host_and_port url unknown_remote_service

path_operation : Option Url → Text
path_operation none = unknown_remote_operation
path_operation (some url) = extract_api_path_value url.pathname

with_method : Option Text → Text → Text
with_method none operation = operation
with_method (some method) operation = method ++ (codes " " ++ operation)

module _ (p : Platform) where
  unfoldable pub get_db_statement_remote_operation : Span → String → Text
  unfolding text_or
  get_db_statement_remote_operation span key =
      let statement = take max_keyword_length (trim_start (get_remote_operation span key)) in
      text_or unknown_remote_operation (first_keyword p.keywords (p.to_upper_case statement))

  unfoldable pub is_lambda_invoke_operation : Span → Bool
  is_lambda_invoke_operation span =
      is_aws_sdk_span p span
      && get_remote_service span p.names.rpc_service == codes "Lambda"
      && is_text (as_text (get span p.names.rpc_method)) (codes "Invoke")

  lambda_name : Option AttributeValue → Text
  lambda_name none = unknown_remote_service
  lambda_name (some name) = if is_truthy (some name) then to_text name else unknown_remote_service

  aws_sdk_service_mapping : List (Text × Text)
  aws_sdk_service_mapping =
      (codes "BedrockAgent", codes "AWS::Bedrock")
      ∷ (codes "BedrockAgentRuntime", codes "AWS::Bedrock")
      ∷ (codes "BedrockRuntime", codes "AWS::BedrockRuntime")
      ∷ (codes "BedrockAgentCore", codes "AWS::BedrockAgentCore")
      ∷ (codes "SecretsManager", codes "AWS::SecretsManager")
      ∷ (codes "SFN", codes "AWS::StepFunctions")
      ∷ (codes "Lambda", codes "AWS::Lambda")
      ∷ []

  normalized_service_name : Text → Text
  unfolding aws_sdk_service_mapping text_or
  normalized_service_name service_name =
      text_or (codes "AWS::" ++ service_name) (lookup service_name aws_sdk_service_mapping)

  unfoldable pub normalize_remote_service_name : Span → Text → Text
  unfolding lambda_name normalized_service_name
  normalize_remote_service_name span service_name =
      if is_aws_sdk_span p span
      then if is_lambda_invoke_operation span
        then lambda_name (get span "aws.lambda.function.name")
        else normalized_service_name service_name
      else service_name

  url_of : Option Text → Option Url
  url_of none = none
  url_of (some url) = p.parse_url url

  unfoldable pub generate_remote_operation : Span → Text
  unfolding with_method path_operation url_of
  generate_remote_operation span =
      let url_key =
        if is_key_present span p.names.http_url then p.names.http_url else p.names.url_full in
      let method_key =
        if is_key_present span p.names.http_method
        then p.names.http_method
        else p.names.http_request_method in
      with_method (as_text (get span method_key))
        (path_operation (url_of (as_text (get span url_key))))

  unfoldable pub generate_remote_service : Span → Text
  unfolding with_port service_of_url url_of
  generate_remote_service span =
      if is_key_present span p.names.net_peer_name
      then with_port (get span p.names.net_peer_port)
          (get_remote_service span p.names.net_peer_name)
      else if is_key_present span "net.sock.peer.addr"
      then with_port (get span "net.sock.peer.port") (get_remote_service span "net.sock.peer.addr")
      else if is_key_present span p.names.http_url
      then service_of_url (url_of (if_present to_text (get span p.names.http_url)))
      else if is_key_present span "server.address"
      then with_port (get span "server.port") (get_remote_service span "server.address")
      else if is_key_present span p.names.url_full
      then service_of_url (url_of (if_present to_text (get span p.names.url_full)))
      else unknown_remote_service
