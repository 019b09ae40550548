-- ===== src/Spans/Model.antt =====
-- Spans and their attributes, and what the code takes from the SDK and the environment. A text is
-- the list of its UTF-16 code units.
use aws_otel_js_instrumentat.Prelude.{
  ℕ, Bool, true, false, Option, none, some, List, String, Text, codes, text_test, ◌==◌, not, lookup,
  is_present, is_empty, insert, string_test, nat_beq,
}

-- A string, a Boolean, an array (its elements, where they are texts, and its text), a whole number that
-- is not negative with its text, or another value with its truth value and its text.
pub data AttributeValue : Type 0 where
  text : Text → AttributeValue
  boolean : Bool → AttributeValue
  array : List (Option Text) → Text → AttributeValue
  number : ℕ → Text → AttributeValue
  other : Bool → Text → AttributeValue

abbrev pub Attributes : Type 0
Attributes = List (String × AttributeValue)

pub data SpanKind : Type 0 where
  internal : SpanKind
  server : SpanKind
  client : SpanKind
  producer : SpanKind
  consumer : SpanKind

pub record Span : Type 0 where
  pub name : Text
  pub kind : SpanKind
  pub attributes : Attributes
  -- the name of the instrumentation scope
  pub scope : Option Text
  -- `span.parentSpanContext?.spanId` is there
  pub has_parent : Bool

-- What `new URL(...)` gives.
pub record Url : Type 0 where
  pub hostname : Text
  pub port : Text
  pub pathname : Text
  pub search : Text

-- The names of the semantic conventions, and the value of a messaging operation.
pub record Conventions : Type 0 where
  pub http_target : String
  pub http_url : String
  pub http_method : String
  pub http_status_code : String
  pub url_path : String
  pub url_full : String
  pub http_request_method : String
  pub rpc_system : String
  pub rpc_service : String
  pub rpc_method : String
  pub db_system : String
  pub db_operation : String
  pub db_statement : String
  pub db_name : String
  pub db_user : String
  pub db_connection_string : String
  pub faas_id : String
  pub faas_invoked_name : String
  pub faas_trigger : String
  pub messaging_system : String
  pub messaging_operation : String
  pub net_peer_name : String
  pub net_peer_port : String
  pub peer_service : String
  pub service_name : String
  pub aws_dynamodb_table_names : String
  pub process : Text

-- The names, the parser of URLs and the
-- decoder of percent-encoded texts (none: they throw), the letter cases, the variables of the
-- environment, the SDK's name of an unnamed service, and the words of the SQL dialects.
pub record Platform : Type 0 where
  pub names : Conventions
  pub parse_url : Text → Option Url
  pub decode_uri_component : Text → Option Text
  pub to_lower_case : Text → Text
  pub to_upper_case : Text → Text
  pub lambda_function_name : Option Text
  pub lambda_remote_environment : Option Text
  pub presigned_url_attribution : Option Text
  pub default_service_name : Text
  pub keywords : List Text

-- `String(value)`
unfoldable pub to_text : AttributeValue → Text
to_text (text t) = t
to_text (boolean true) = codes "true"
to_text (boolean false) = codes "false"
to_text (array elements t) = t
to_text (number n t) = t
to_text (other truth t) = t

-- `typeof value === 'string'`
unfoldable pub as_text : Option AttributeValue → Option Text
as_text (some (text t)) = some t
as_text (some (boolean b)) = none
as_text (some (array elements t)) = none
as_text (some (number n t)) = none
as_text (some (other truth t)) = none
as_text none = none

unfoldable pub is_truthy : Option AttributeValue → Bool
is_truthy (some (text t)) = not (is_empty t)
is_truthy (some (boolean b)) = b
is_truthy (some (array elements t)) = true
is_truthy (some (number n t)) = not (nat_beq n 0)
is_truthy (some (other truth t)) = truth
is_truthy none = false

-- `value === t`
unfoldable pub is_text : Option Text → Text → Bool
is_text none t = false
is_text (some s) t = s == t

-- `span.attributes[key]`
unfoldable pub get : Span → String → Option AttributeValue
get span key = lookup key span.attributes

unfoldable pub is_key_present : Span → String → Bool
unfolding get
is_key_present span key = is_present (get span key)

-- `span.setAttribute(key, value)`
unfoldable pub set_attribute : Span → String → AttributeValue → Span
set_attribute span key value = record span { attributes = insert key value span.attributes }

unfoldable pub same_kind : SpanKind → SpanKind → Bool
same_kind internal internal = true
same_kind server server = true
same_kind client client = true
same_kind producer producer = true
same_kind consumer consumer = true
same_kind _ _ = false

-- `SpanKind[kind]`
unfoldable pub kind_name : SpanKind → Text
kind_name internal = codes "INTERNAL"
kind_name server = codes "SERVER"
kind_name client = codes "CLIENT"
kind_name producer = codes "PRODUCER"
kind_name consumer = codes "CONSUMER"
