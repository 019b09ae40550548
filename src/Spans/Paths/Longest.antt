-- ===== src/Spans/Paths/Longest.antt =====
-- Which template names a span.
use aws_otel_js_instrumentat.Prelude.{
  ℕ, zero, suc, ◌≤◌, true, false, not, ◌&&◌, Option, none, some, List, [], ◌∷◌, map, Text, length,
  is_empty, nat_beq, ltb, drop_last, split, trim, keep_if, ◌≡◌, refl, arith, All,
}
use aws_otel_js_instrumentat.Spans.Paths.{
  segments, ends_with, strip_slashes, normalized, path_matches,
}

length-drop_last : (c : ℕ) (s : Text) → length (drop_last (c ∷ s)) ≡ length s
length-drop_last c [] = refl
length-drop_last c (d ∷ s) = omega (arith, length-drop_last d s)

strip_slashes_ends :
    (fuel : ℕ) (path : Text)
    → length path ≤ fuel
    → ends_with 47 (strip_slashes fuel path) && ltb 1 (length (strip_slashes fuel path)) ≡ false
unfolding strip_slashes
strip_slashes_ends zero [] h = refl
strip_slashes_ends zero (c ∷ s) h = absurd (omega arith)
strip_slashes_ends (suc fuel) [] h = refl
strip_slashes_ends (suc fuel) (c ∷ s) h =
    ground (arith, length-drop_last c s, strip_slashes_ends fuel (drop_last (c ∷ s)))

-- The loop over trailing slashes runs to its end: what is left has one unit at most, or no slash
-- at its end.
pub normalized_ends :
    (path : Text) → ends_with 47 (normalized path) && ltb 1 (length (normalized path)) ≡ false
unfolding normalized
normalized_ends path = strip_slashes_ends (length path) path (omega arith)

-- The templates that the variable holds, in its order.
abbrev pub templates : Text → List Text
templates config = keep_if (λ path. not (is_empty path)) (map trim (split (nat_beq 44) config))

-- The template chosen among several: none matches, or a longest one that does.
abbrev pub IsChosen : List Text → List Text → Option Text → Type 0
IsChosen url_segments paths none = All (λ path. path_matches url_segments path ≡ false) paths
IsChosen url_segments paths (some chosen) =
    (path_matches url_segments chosen ≡ true)
    × All
        (λ path.
          path_matches url_segments path ≡ true → length (segments path) ≤ length (segments chosen))
        paths
