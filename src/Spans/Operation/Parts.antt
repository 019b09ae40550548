-- ===== src/Spans/Operation/Parts.antt =====
-- The first part of a path.
use aws_otel_js_instrumentat.Prelude.{
  true, List, [], ◌∷◌, ◌++◌, Text, codes, Lacks, split, split-append, split_one, split-Lacks, ◌≡◌,
  refl, All, ap, append-nil,
}
use aws_otel_js_instrumentat.Spans.Operation.{ends_part, second_part, extract_api_path_value}

-- The end of a text, or a unit that ends a part.
abbrev pub AtEnd : Text → Type 0
AtEnd [] = Unit {0}
AtEnd (c ∷ cs) = ends_part c ≡ true

first_split :
    (v rest : Text)
    → Lacks ends_part v
    → AtEnd rest
    → (ws : List Text) × (split ends_part (v ++ rest) ≡ v ∷ ws)
first_split v [] l e = ([], rw append-nil (split_one ends_part v l))
first_split v (c ∷ rest) l e = (split ends_part rest, split-append ends_part v c rest l e)

-- The API path of a target that begins with a slash is the slash and the part after it, up to the
-- next `/`, `?` or `#`, whatever follows.
pub extract_api_path_value_lem :
    (v rest : Text)
    → Lacks ends_part v
    → AtEnd rest
    → extract_api_path_value (codes "/" ++ (v ++ rest)) ≡ codes "/" ++ v
unfolding extract_api_path_value second_part split
extract_api_path_value_lem v rest l e =
    let (ws, eq) = first_split v rest l e in ap (λ parts. second_part ([] ∷ parts)) eq

second_part-Lacks :
    (ws : List Text)
    → All (Lacks ends_part) ws
    → (v : Text) × (second_part ws ≡ codes "/" ++ v) × Lacks ends_part v
unfolding second_part
second_part-Lacks [] l = ([], refl, tt)
second_part-Lacks (w ∷ []) l = ([], refl, tt)
second_part-Lacks (w ∷ v ∷ ws) l = (v, refl, l.1.0)

-- Of any target, the API path is a slash and one part.
pub extract_api_path_value_part :
    (target : Text)
    → (v : Text) × (extract_api_path_value target ≡ codes "/" ++ v) × Lacks ends_part v
unfolding extract_api_path_value second_part
extract_api_path_value_part [] = ([], refl, tt)
extract_api_path_value_part (c ∷ cs) = second_part-Lacks _ (split-Lacks ends_part (c ∷ cs))
