-- ===== src/MetricAttributes/Escape/Fields.antt =====
-- The fields of an escaped identifier.
use aws_otel_js_instrumentat.Prelude.{
  ℕ, List, [], ◌∷◌, ◌++◌, map, Text, codes, nat_beq, nat_beq_iff, split, join, substitute,
  join-split-substitute, substitute-append, onto_first, if◌then◌else◌, ◌≡◌, refl, arith, ◌∙◌, ap,
  append_assoc,
}
use aws_otel_js_instrumentat.MetricAttributes.Escape.{escape_text}

abbrev pub quote : ℕ → Text
quote c = if nat_beq 94 c then codes "^^" else if nat_beq 124 c then codes "^|" else c ∷ []

abbrev pub quoted : Text → Text
quoted [] = []
quoted (c ∷ cs) = quote c ++ quoted cs

substitute-quote :
    (c : ℕ) → substitute 124 (codes "^|") (if nat_beq 94 c then codes "^^" else c ∷ []) ≡ quote c
unfolding substitute
substitute-quote c = ground (arith, nat_beq_iff 94 c, nat_beq_iff 124 c)

substitute-quoted :
    (s : Text) → substitute 124 (codes "^|") (substitute 94 (codes "^^") s) ≡ quoted s
unfolding substitute
substitute-quoted [] = refl
substitute-quoted (c ∷ s) =
    substitute-append 124 (codes "^|") (if nat_beq 94 c then codes "^^" else c ∷ [])
      (substitute 94 (codes "^^") s)
    ∙ ap
        (λ (rest : Text).
          substitute 124 (codes "^|") (if nat_beq 94 c then codes "^^" else c ∷ []) ++ rest)
        (substitute-quoted s)
    ∙ ap (λ (first : Text). first ++ quoted s) (substitute-quote c)

pub escape_text-quoted : (s : Text) → escape_text s ≡ quoted s
unfolding escape_text
escape_text-quoted s =
    join-split-substitute 124 (codes "^|") (join (codes "^^") (split (nat_beq 94) s))
    ∙ ap (substitute 124 (codes "^|")) (join-split-substitute 94 (codes "^^") s)
    ∙ substitute-quoted s

-- An escaped identifier read back: `^` gives the unit after it, and `|` ends a field.
pub fields : Text → List Text
fields [] = [] ∷ []
fields (c ∷ []) = if nat_beq c 124 then [] ∷ [] ∷ [] else (c ∷ []) ∷ []
fields (c ∷ d ∷ cs) =
    let escaped = onto_first d (fields cs) in
    let rest = fields (d ∷ cs) in
    if nat_beq c 94 then escaped else if nat_beq c 124 then [] ∷ rest else onto_first c rest

fields-quote : (c : ℕ) (rest : Text) → fields (quote c ++ rest) ≡ onto_first c (fields rest)
unfolding fields onto_first
fields-quote c [] = ground (arith, nat_beq_iff 94 c, nat_beq_iff 124 c)
fields-quote c (d ∷ rest) = ground (arith, nat_beq_iff 94 c, nat_beq_iff 124 c)

fields-quoted : (s rest : Text) → fields (quoted s ++ 124 ∷ rest) ≡ s ∷ fields rest
unfolding fields onto_first
fields-quoted [] [] = refl
fields-quoted [] (d ∷ rest) = refl
fields-quoted (c ∷ s) rest =
    ap fields (append_assoc (quote c) (quoted s) (124 ∷ rest))
    ∙ fields-quote c (quoted s ++ 124 ∷ rest)
    ∙ ap (onto_first c) (fields-quoted s rest)

fields_last : (s : Text) → fields (quoted s) ≡ s ∷ []
unfolding fields onto_first
fields_last [] = refl
fields_last (c ∷ s) = fields-quote c (quoted s) ∙ ap (onto_first c) (fields_last s)

-- Escaped texts joined by `|` are read back as they were: no two lists of fields have the same
-- identifier.
pub fields-join-escape_text :
    (w : Text) (ws : List Text) → fields (join (codes "|") (map escape_text (w ∷ ws))) ≡ w ∷ ws
unfolding join
fields-join-escape_text w [] = ap fields (escape_text-quoted w) ∙ fields_last w
fields-join-escape_text w (v ∷ ws) =
    ap
      (λ (first : Text).
        fields (first ++ (codes "|" ++ join (codes "|") (map escape_text (v ∷ ws)))))
      (escape_text-quoted w)
    ∙ fields-quoted w (join (codes "|") (map escape_text (v ∷ ws)))
    ∙ ap (◌∷◌ w) (fields-join-escape_text v ws)
