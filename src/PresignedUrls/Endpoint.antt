-- ===== src/PresignedUrls/Endpoint.antt =====
-- s3-presigned-url-attributor.ts: the endpoints of S3, their buckets and object keys. The expressions
-- for endpoints are read on the labels between the full stops of a host.
pub mod Buckets
use aws_otel_js_instrumentat.Prelude.{
  ℕ, Bool, true, false, not, ◌&&◌, ◌||◌, Option, none, some, List, [], ◌∷◌, ◌++◌, map, Text, codes,
  ◌==◌, text_test, nat_beq, leb, ltb, all, length, keep_if, is_empty, is_present, if_present, split,
  join, starts_with, drop, or_else, get_elem?, ◌>>=◌, ◌+◌, if◌then◌else◌,
}
use aws_otel_js_instrumentat.PresignedUrls.Parser.{PresignedAwsUrl}

-- The case of a unit as the flag `i` sees it in a letter of the expression.
abbrev pub folded : ℕ → ℕ
folded c = if leb 65 c && leb c 90 then c + 32 else c

-- `[a-z0-9-]`, and one or more of them
abbrev pub is_label_unit : ℕ → Bool
is_label_unit c = leb 97 c && leb c 122 || leb 48 c && leb c 57 || nat_beq c 45

unfoldable pub is_label : Text → Bool
is_label label = not (is_empty label) && all is_label_unit label

-- `\.amazonaws\.com(?:\.cn)?$`
unfoldable pub is_domain : List Text → Bool
is_domain (name ∷ top ∷ []) = name == codes "amazonaws" && top == codes "com"
is_domain (name ∷ top ∷ country ∷ []) =
    name == codes "amazonaws" && top == codes "com" && country == codes "cn"
is_domain [] = false
is_domain (a ∷ []) = false
is_domain (a ∷ b ∷ c ∷ d ∷ labels) = false

-- The styles of an endpoint: its first label, and the labels up to the domain.
unfoldable pub is_style : Text → List Text → Bool
is_style s3 [] = s3 == codes "s3" || starts_with (codes "s3-") s3 && is_label (drop 3 s3)
is_style s3 (region ∷ []) =
    (s3 == codes "s3" || s3 == codes "s3-fips") && is_label region
    || s3 == codes "s3-accelerate" && region == codes "dualstack"
is_style s3 (dualstack ∷ region ∷ []) =
    (s3 == codes "s3" || s3 == codes "s3-fips") && dualstack == codes "dualstack" && is_label region
is_style s3 (a ∷ b ∷ c ∷ labels) = false

-- The labels before the domain.
unfoldable pub before_domain : List Text → Option (List Text)
before_domain [] = none
before_domain (label ∷ labels) =
    let rest = if_present (λ (before : List Text). label ∷ before) (before_domain labels) in
    if is_domain (label ∷ labels) then some [] else rest

endpoint_of : Option (List Text) → Bool
endpoint_of none = false
endpoint_of (some []) = false
endpoint_of (some (s3 ∷ labels)) = is_style s3 labels

-- The labels of a host, letters folded, against `S3_ENDPOINT_SUFFIX`.
unfoldable pub is_s3_endpoint : List Text → Bool
unfolding endpoint_of
is_s3_endpoint labels = endpoint_of (before_domain (map (λ (l : Text). map folded l) labels))

abbrev pub labels_of : Text → List Text
labels_of host = split (nat_beq 46) host

unfoldable pub is_path_style : Text → Bool
is_path_style host = is_s3_endpoint (labels_of host)

-- The longest run of first labels before an endpoint: `(.+)` is greedy.
unfoldable pub labels_before_endpoint : List Text → Option (List Text)
labels_before_endpoint [] = none
labels_before_endpoint (label ∷ labels) =
    or_else (if_present (λ (before : List Text). label ∷ before) (labels_before_endpoint labels))
      (if is_s3_endpoint labels then some (label ∷ []) else none)

-- What `.` does not match.
is_line_terminator : ℕ → Bool
is_line_terminator c = nat_beq c 10 || nat_beq c 13 || nat_beq c 8232 || nat_beq c 8233

-- `.+`
unfoldable pub is_bucket : Text → Bool
unfolding is_line_terminator
is_bucket bucket = not (is_empty bucket) && all (λ c. not (is_line_terminator c)) bucket

bucket_if : Text → Option Text
bucket_if bucket = if is_bucket bucket then some bucket else none

unfoldable pub get_virtual_hosted_style_bucket : Text → Option Text
unfolding bucket_if
get_virtual_hosted_style_bucket host = do
  labels ← labels_before_endpoint (labels_of host)
  bucket_if (join (codes ".") labels)

-- `replace(/^\/+/, '')`
without_first_slashes : Text → Text
without_first_slashes [] = []
without_first_slashes (c ∷ cs) =
    let rest = without_first_slashes cs in if nat_beq c 47 then rest else c ∷ cs

segments_of : Text → List Text
segments_of normalized_path =
    if is_empty normalized_path
    then []
    else keep_if (λ segment. not (is_empty segment)) (split (nat_beq 47) normalized_path)

unfoldable pub get_path_segments : Text → List Text
unfolding segments_of without_first_slashes
get_path_segments path = segments_of (without_first_slashes path)

unfoldable pub get_path_style_bucket : PresignedAwsUrl → Option Text
get_path_style_bucket url = get_elem? (get_path_segments url.path) 0

unfoldable pub has_object_key : PresignedAwsUrl → Bool → Bool
has_object_key url path_style =
    if path_style
    then ltb 1 (length (get_path_segments url.path))
    else ltb 0 (length (get_path_segments url.path))
