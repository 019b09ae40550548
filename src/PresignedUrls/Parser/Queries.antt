-- ===== src/PresignedUrls/Parser/Queries.antt =====
-- The parameters of a query read back.
use aws_otel_js_instrumentat.Prelude.{
  some, List, [], ◌∷◌, ◌++◌, map, Text, codes, text_test, nat_beq, join, lookup, Lacks, ◌≡◌, ◌≢◌,
}
use aws_otel_js_instrumentat.Spans.Model.{Platform}
use aws_otel_js_instrumentat.PresignedUrls.Parser.{QueryParameters}

-- No name has an empty list of values.
abbrev HasValues : QueryParameters → Type 0
HasValues m = (name : Text) → lookup name m ≢ some []

module _ (p : Platform) (encode : Text → Text) where
  -- `name=value` for each parameter, encoded, with `&` between them.
  abbrev pub print_pair : Text × Text → Text
  print_pair (name, value) = encode name ++ 61 ∷ encode value

  abbrev pub print_query : List (Text × Text) → Text
  print_query parameters = join (codes "&") (map print_pair parameters)

  -- What the encoding promises: it is undone, and leaves no delimiter.
  pub record IsEncoding : Type 0 where
    pub undone : (t : Text) → p.decode_uri_component (encode t) ≡ some t
    pub no_ampersand : (t : Text) → Lacks (nat_beq 38) (encode t)
    pub no_equals : (t : Text) → Lacks (nat_beq 61) (encode t)
