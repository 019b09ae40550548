-- ===== src/MetricAttributes/Escape/Connection.antt =====
-- What the identifier of a database connection holds.
use aws_otel_js_instrumentat.Prelude.{
  ℕ, Bool, ◌||◌, some, List, [], ◌∷◌, ◌++◌, Text, codes, nat_beq, join, Lacks, if_present, ◌≡◌,
  refl, arith, ◌∙◌, ap, sym,
}
use aws_otel_js_instrumentat.Spans.Model.{
  AttributeValue, text, Span, Platform, as_text, to_text, get, is_key_present,
}
use aws_otel_js_instrumentat.MetricAttributes.Escape.{
  escape_text, escape_delimiters, get_db_connection,
}
use aws_otel_js_instrumentat.MetricAttributes.Escape.Fields.{
  quoted, escape_text-quoted, fields, fields-join-escape_text,
}

abbrev pub is_delimiter : ℕ → Bool
is_delimiter c = nat_beq 94 c || nat_beq 124 c

quoted-Lacks : (s : Text) → Lacks is_delimiter s → quoted s ≡ s
quoted-Lacks [] l = refl
quoted-Lacks (c ∷ s) l = ground (arith, quoted-Lacks s l.1)

module _ (p : Platform) where
  identifier_of :
      (span : Span) (name address : Text) (port : AttributeValue)
      → get span p.names.db_name ≡ some (text name)
      → get span "server.address" ≡ some (text address)
      → get span "server.port" ≡ some port
      → get_db_connection p span
        ≡ some (
            escape_text name ++ (codes "|" ++ (escape_text address ++ (codes "|" ++ to_text port))))
  unfolding get_db_connection is_key_present as_text escape_delimiters
  identifier_of span name address port n a t = rw (n, a, t) refl

  -- The identifier of a connection with a name, an address and a port without delimiters is read back
  -- as these three fields, whatever delimiters the name and the address hold.
  pub db_connection_fields :
      (span : Span) (name address : Text) (port : AttributeValue)
      → get span p.names.db_name ≡ some (text name)
      → get span "server.address" ≡ some (text address)
      → get span "server.port" ≡ some port
      → Lacks is_delimiter (to_text port)
      → if_present fields (get_db_connection p span) ≡ some (name ∷ address ∷ to_text port ∷ [])
  unfolding join
  db_connection_fields span name address port n a t l =
      ap (if_present fields) (identifier_of span name address port n a t)
      ∙ ap
          (λ (last : Text). some (
            fields
              (escape_text name ++ (codes "|" ++ (escape_text address ++ (codes "|" ++ last))))))
          (sym (escape_text-quoted (to_text port) ∙ quoted-Lacks (to_text port) l))
      ∙ ap (λ (parts : List Text). some parts)
          (fields-join-escape_text name (address ∷ to_text port ∷ []))
