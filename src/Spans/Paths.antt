-- ===== src/Spans/Paths.antt =====
-- aws-span-processing-util.ts: span names from the path templates of OTEL_AWS_HTTP_OPERATION_PATHS.
pub mod Longest
use aws_otel_js_instrumentat.Prelude.{
  ℕ, zero, suc, Bool, true, false, not, ◌&&◌, ◌||◌, Option, none, some, List, [], ◌∷◌, ◌++◌, map,
  Text, codes, ◌==◌, text_test, nat_beq, leb, ltb, split, trim, starts_with, or_else, is_empty,
  keep_if, drop_last, length, sort_by, if◌then◌else◌,
}
use aws_otel_js_instrumentat.Spans.Model.{Span, Platform, as_text, get}
use aws_otel_js_instrumentat.Spans.Operation.{get_http_method}

-- `text.split('/')`
abbrev pub segments : Text → List Text
segments t = split (nat_beq 47) t

-- The comparator of the templates: true when the first one may stand first.
abbrev pub has_more_segments : Text → Text → Bool
has_more_segments a b = leb (length (segments b)) (length (segments a))

-- The templates of a value of the variable, longest first.
unfoldable pub parse_operation_paths : Text → List Text
parse_operation_paths config =
    sort_by has_more_segments
      (keep_if (λ path. not (is_empty path)) (map trim (split (nat_beq 44) config)))

unfoldable pub get_operation_paths : Option Text → List Text
get_operation_paths none = []
get_operation_paths (some config) =
    if is_empty (trim config) then [] else parse_operation_paths config

-- `getOperationPaths` on `operationPaths`, the templates as they were first read.
unfoldable pub get_cached_operation_paths :
    Option (List Text) → Option Text → List Text × Option (List Text)
get_cached_operation_paths none config =
    let paths = get_operation_paths config in (paths, some paths)
get_cached_operation_paths (some paths) config = (paths, some paths)

unfoldable pub reset_operation_paths : Option (List Text) → Option (List Text)
reset_operation_paths paths = none

-- `text.substring(0, text.indexOf(unit))`, where the unit occurs.
unfoldable pub until : ℕ → Text → Text
until unit [] = []
until unit (c ∷ cs) = if nat_beq c unit then [] else c ∷ until unit cs

unfoldable pub ends_with : ℕ → Text → Bool
ends_with unit [] = false
ends_with unit (c ∷ []) = nat_beq c unit
ends_with unit (c ∷ d ∷ cs) = ends_with unit (d ∷ cs)

-- `while (path.endsWith('/') && path.length > 1)`, on fuel.
unfoldable pub strip_slashes : ℕ → Text → Text
unfolding ends_with
strip_slashes zero path = path
strip_slashes (suc fuel) path =
    let shorter = strip_slashes fuel (drop_last path) in
    if ends_with 47 path && ltb 1 (length path) then shorter else path

unfoldable pub normalized : Text → Text
normalized path = strip_slashes (length path) path

unfoldable pub is_wildcard_segment : Text → Bool
unfolding ends_with
is_wildcard_segment segment =
    starts_with (codes "{") segment && ends_with 125 segment
    || starts_with (codes ":") segment
    || segment == codes "*"

segment_matches : Text → Text → Bool
segment_matches url_segment pattern_segment =
    if is_wildcard_segment pattern_segment
    then not (is_empty url_segment)
    else pattern_segment == url_segment

unfoldable pub segments_match : List Text → List Text → Bool
unfolding segment_matches
segments_match url_segments [] = true
segments_match [] (ps ∷ pattern_segments) = false
segments_match (us ∷ url_segments) (ps ∷ pattern_segments) =
    segment_matches us ps && segments_match url_segments pattern_segments

unfoldable pub path_matches : List Text → Text → Bool
path_matches url_segments path = segments_match url_segments (segments (normalized path))

-- The first template that matches.
unfoldable pub first_match : List Text → List Text → Option Text
first_match url_segments [] = none
first_match url_segments (path ∷ paths) =
    if path_matches url_segments path then some path else first_match url_segments paths

module _ (p : Platform) where
  unfoldable pub get_url_path : Span → Option Text
  get_url_path span = as_text (or_else (get span p.names.url_path) (get span p.names.http_target))

  name_with : Option Text → Text → Text
  name_with none path = path
  name_with (some method) path = method ++ (codes " " ++ path)

  unfoldable pub renamed : Span → Option Text → Span
  unfolding name_with
  renamed span none = span
  renamed span (some path) = record span { name = name_with (get_http_method p span) path }

  -- The segments of a URL's path without its query and fragment.
  unfoldable pub url_segments_of : Text → List Text
  url_segments_of url_path = segments (normalized (until 35 (until 63 url_path)))

  unfoldable pub apply_on_path : List Text → Span → Option Text → Span
  unfolding renamed
  apply_on_path paths span none = span
  apply_on_path paths span (some url_path) =
      if is_empty url_path
      then span
      else renamed span (first_match (url_segments_of url_path) paths)

  unfoldable pub apply_operation_path_span_name : Option Text → Span → Span
  unfolding apply_on_path
  apply_operation_path_span_name config span =
      apply_on_path (get_operation_paths config) span (get_url_path span)
