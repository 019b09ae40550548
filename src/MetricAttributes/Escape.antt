-- ===== src/MetricAttributes/Escape.antt =====
-- aws-metric-attribute-generator.ts: escaped identifiers, and the identifier of a database connection
-- (`escapeDelimiters`, `getDbConnection`).
pub mod Fields
pub mod Connection
use aws_otel_js_instrumentat.Prelude.{
  ℕ, Bool, true, false, Option, none, some, List, [], ◌∷◌, ◌++◌, String, Text, codes, nat_beq, drop,
  is_empty, split, join, starts_with, includes, is_present, if_present, ◌>>=◌, if◌then◌else◌,
}
use aws_otel_js_instrumentat.Spans.Model.{
  AttributeValue, Span, Url, Platform, as_text, to_text, get, is_key_present,
}

-- `^` becomes `^^`, then `|` becomes `^|`.
unfoldable pub escape_text : Text → Text
escape_text input =
    join (codes "^|") (split (nat_beq 124) (join (codes "^^") (split (nat_beq 94) input)))

unfoldable pub escape_delimiters : Option AttributeValue → Option Text
escape_delimiters input = if_present escape_text (as_text input)

-- `text.substring(text.indexOf('://'))`, where it occurs.
from_scheme_end : Text → Option Text
from_scheme_end [] = none
from_scheme_end (c ∷ cs) =
    if starts_with (codes "://") (c ∷ cs) then some (c ∷ cs) else from_scheme_end cs

-- What is parsed in place of a connection string.
without_scheme : Text → Option Text → Text
without_scheme connection none = connection
without_scheme connection (some rest) = codes "dummyschema" ++ rest

unfoldable pub port_suffix : Option AttributeValue → Text
port_suffix none = []
port_suffix (some port) = codes "|" ++ to_text port

unfoldable pub build_db_connection : Option AttributeValue → Option AttributeValue → Option Text
unfolding port_suffix
build_db_connection address port =
    if_present (λ a. escape_text a ++ port_suffix port) (as_text address)

connection_of_url : Url → Option Text
connection_of_url url =
    if is_empty url.hostname
    then none
    else some
        (escape_text url.hostname ++ (if is_empty url.port then [] else codes "|" ++ url.port))

-- A template literal of a text that may be missing.
unfoldable pub in_template : Option Text → Text
in_template none = codes "undefined"
in_template (some t) = t

unfoldable pub with_db_name : Option AttributeValue → Option Text → Option Text
unfolding in_template
with_db_name none connection = connection
with_db_name (some name) none = none
with_db_name (some name) (some connection) =
    some (in_template (escape_delimiters (some name)) ++ (codes "|" ++ connection))

module _ (p : Platform) where
  connection_of_string : Option Text → Option Text
  unfolding without_scheme from_scheme_end connection_of_url
  connection_of_string none = none
  connection_of_string (some connection) = do
    url ← p.parse_url (without_scheme connection (from_scheme_end connection))
    connection_of_url url

  unfoldable pub db_connection : Span → Option Text
  unfolding build_db_connection connection_of_string
  db_connection span =
      if is_key_present span "server.address"
      then build_db_connection (get span "server.address") (get span "server.port")
      else if is_key_present span p.names.net_peer_name
      then build_db_connection (get span p.names.net_peer_name) (get span p.names.net_peer_port)
      else if is_key_present span "server.socket.address"
      then build_db_connection (get span "server.socket.address") (get span "server.socket.port")
      else if is_key_present span p.names.db_connection_string
      then connection_of_string (as_text (get span p.names.db_connection_string))
      else none

  unfoldable pub get_db_connection : Span → Option Text
  unfolding with_db_name db_connection
  get_db_connection span = with_db_name (get span p.names.db_name) (db_connection span)
