-- ===== src/Spans/Sample.antt =====
-- Names of the semantic conventions and a platform for the tests.
use aws_otel_js_instrumentat.Prelude.{
  ℕ, Option, none, some, List, [], ◌∷◌, Text, codes, map, nat_beq, leb, ◌&&◌, split, if◌then◌else◌,
  ◌+◌, ◌-◌, false,
}
use aws_otel_js_instrumentat.Spans.Model.{Conventions, Platform, Url, Span, SpanKind, Attributes}

abbrev names : Conventions
names = record {
  http_target = "http.target";
  http_url = "http.url";
  http_method = "http.method";
  http_status_code = "http.status_code";
  url_path = "url.path";
  url_full = "url.full";
  http_request_method = "http.request.method";
  rpc_system = "rpc.system";
  rpc_service = "rpc.service";
  rpc_method = "rpc.method";
  db_system = "db.system";
  db_operation = "db.operation";
  db_statement = "db.statement";
  db_name = "db.name";
  db_user = "db.user";
  db_connection_string = "db.connection_string";
  faas_id = "faas.id";
  faas_invoked_name = "faas.invoked_name";
  faas_trigger = "faas.trigger";
  messaging_system = "messaging.system";
  messaging_operation = "messaging.operation";
  net_peer_name = "net.peer.name";
  net_peer_port = "net.peer.port";
  peer_service = "peer.service";
  service_name = "service.name";
  aws_dynamodb_table_names = "aws.dynamodb.table_names";
  process = codes "process";
}

abbrev lower_unit : ℕ → ℕ
lower_unit c = if leb 65 c && leb c 90 then c + 32 else c

abbrev upper_unit : ℕ → ℕ
upper_unit c = if leb 97 c && leb c 122 then c - 32 else c

abbrev pub lower : Text → Text
lower t = map lower_unit t

-- The host of a URL, and the path after it where there is one part.
abbrev url_of : List Text → Option Url
url_of (scheme ∷ blank ∷ host ∷ path ∷ []) =
    some (record { hostname = host; port = []; pathname = 47 ∷ path; search = [] })
url_of _ = none

abbrev pub platform : Platform
platform = record {
  names = names;
  parse_url = λ t. url_of (split (nat_beq 47) t);
  decode_uri_component = λ t. some t;
  to_lower_case = lower;
  to_upper_case = map upper_unit;
  lambda_function_name = none;
  lambda_remote_environment = none;
  presigned_url_attribution = none;
  default_service_name = codes "unknown_service:node";
  keywords = codes "SELECT" ∷ codes "INSERT" ∷ [];
}

-- A span without a parent.
abbrev pub span_of : SpanKind → Attributes → Span
span_of kind attributes = record {
  name = codes "GET /cart";
  kind = kind;
  attributes = attributes;
  scope = none;
  has_parent = false;
}
