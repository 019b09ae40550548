-- ===== src/PresignedUrls/Endpoint/Buckets.antt =====
-- The bucket in the host of a virtual-hosted request.
use aws_otel_js_instrumentat.Prelude.{
  true, false, none, some, List, [], ◌∷◌, ◌++◌, map, Text, codes, text_test, nat_beq, nat_beq_iff,
  all, join, starts_with, map-append, or_else, same_units, split_cons, split-at, split-join,
  join-split, all-Lacks, ◌≡◌, refl, sym, ◌∙◌, ap, arith,
}
use aws_otel_js_instrumentat.PresignedUrls.Endpoint.{
  folded, is_label_unit, is_label, is_domain, is_style, before_domain, endpoint_of, is_s3_endpoint,
  labels_of, is_path_style, labels_before_endpoint, is_bucket, bucket_if,
  get_virtual_hosted_style_bucket,
}

-- Where no later label begins an endpoint, the first labels are found again.
before_endpoint :
    (label : Text) (labels endpoint : List Text)
    → is_s3_endpoint endpoint ≡ true
    → labels_before_endpoint endpoint ≡ none
    → labels_before_endpoint ((label ∷ labels) ++ endpoint) ≡ some (label ∷ labels)
unfolding labels_before_endpoint or_else
before_endpoint label [] endpoint h n = ground arith
before_endpoint label (l ∷ labels) endpoint h n = rw (before_endpoint l labels endpoint h n) refl

-- `s3.<region>.amazonaws.com`
abbrev pub regional_labels : Text → List Text
regional_labels region = codes "s3" ∷ region ∷ codes "amazonaws" ∷ codes "com" ∷ []

abbrev pub regional_host : Text → Text → Text
regional_host bucket region = bucket ++ (codes "." ++ join (codes ".") (regional_labels region))

folded_label : (t : Text) → all is_label_unit t ≡ true → map folded t ≡ t
folded_label [] h = refl
folded_label (c ∷ t) h = ground (arith, folded_label t (ground arith))

region-domain : (region : Text) → is_domain (region ∷ codes "amazonaws" ∷ codes "com" ∷ []) ≡ false
unfolding is_domain same_units
region-domain region = ground arith

before_region :
    (region : Text) → before_domain (regional_labels region) ≡ some (codes "s3" ∷ region ∷ [])
unfolding before_domain is_domain same_units
before_region region = rw (region-domain region) refl

folded_labels :
    (region : Text)
    → is_label region ≡ true
    → map (λ (l : Text). map folded l) (regional_labels region) ≡ regional_labels region
unfolding is_label
folded_labels region label = ap regional_labels (folded_label region (ground (arith, label)))

regional_endpoint :
    (region : Text) → is_label region ≡ true → is_s3_endpoint (regional_labels region) ≡ true
unfolding is_s3_endpoint is_style endpoint_of same_units
regional_endpoint region label =
    rw (folded_labels region label, before_region region) (ground (arith, label))

region-style :
    (region : Text) → starts_with (codes "s3") region ≡ false → is_style region [] ≡ false
unfolding is_style starts_with same_units
region-style [] other = refl
region-style (c ∷ []) other = ground arith
region-style (c ∷ d ∷ region) other =
    ground (arith, nat_beq_iff c 115, nat_beq_iff 115 c, nat_beq_iff d 51, nat_beq_iff 51 d)

region_no_endpoint :
    (region : Text)
    → is_label region ≡ true
    → starts_with (codes "s3") region ≡ false
    → is_s3_endpoint (region ∷ codes "amazonaws" ∷ codes "com" ∷ []) ≡ false
unfolding is_s3_endpoint before_domain endpoint_of is_label is_domain same_units
region_no_endpoint region label other =
    rw
      (folded_label region (ground (arith, label)), region-domain region, region-style region other)
      refl

no_later_endpoint :
    (region : Text)
    → is_label region ≡ true
    → starts_with (codes "s3") region ≡ false
    → labels_before_endpoint (regional_labels region) ≡ none
unfolding labels_before_endpoint is_s3_endpoint before_domain is_domain is_style endpoint_of or_else
    same_units
no_later_endpoint region label other = rw (region_no_endpoint region label other) refl

regional_split :
    (bucket region : Text)
    → is_label region ≡ true
    → labels_of (regional_host bucket region) ≡ labels_of bucket ++ regional_labels region
unfolding is_label
regional_split bucket region label =
    split-at (nat_beq 46) bucket 46 (join (codes ".") (regional_labels region)) refl
    ∙ ap (λ (labels : List Text). labels_of bucket ++ labels)
        (split-join (nat_beq 46) 46 (codes "s3") (region ∷ codes "amazonaws" ∷ codes "com" ∷ [])
          refl
          (
            (refl, (refl, tt)),
            (
              all-Lacks is_label_unit 46 region refl (ground (arith, label)),
              (
                (refl, (refl, (refl, (refl, (refl, (refl, (refl, (refl, (refl, tt))))))))),
                ((refl, (refl, (refl, tt))), tt),
              ),
            ),
          ))

more-domain :
    (label region : Text) (labels : List Text)
    → is_domain (label ∷ (labels ++ regional_labels region)) ≡ false
unfolding is_domain
more-domain l region [] = refl
more-domain l region (m ∷ []) = refl
more-domain l region (m ∷ n ∷ []) = refl
more-domain l region (m ∷ n ∷ o ∷ labels) = refl

before_regional :
    (labels : List Text) (region : Text)
    → before_domain (labels ++ regional_labels region) ≡ some (labels ++ codes "s3" ∷ region ∷ [])
unfolding before_domain
before_regional [] region = before_region region
before_regional (l ∷ labels) region =
    rw (more-domain l region labels, before_regional labels region) refl

longer-style :
    (label region : Text) (labels : List Text)
    → is_style label (labels ++ codes "s3" ∷ region ∷ []) ≡ false
unfolding is_style same_units
longer-style l region [] = ground arith
longer-style l region (m ∷ []) = refl
longer-style l region (m ∷ n ∷ []) = refl
longer-style l region (m ∷ n ∷ o ∷ labels) = refl

-- A host with more labels before a regional endpoint is none itself.
longer_endpoint :
    (label region : Text) (labels : List Text)
    → is_label region ≡ true
    → is_s3_endpoint ((label ∷ labels) ++ regional_labels region) ≡ false
unfolding is_s3_endpoint endpoint_of
longer_endpoint l region labels label =
    rw
      (
        map-append (λ (t : Text). map folded t) (l ∷ labels) (regional_labels region),
        folded_labels region label,
        before_regional (map (λ (t : Text). map folded t) (l ∷ labels)) region,
      )
      (longer-style (map folded l) region (map (λ (t : Text). map folded t) labels))

pub is_path_style-regional_host :
    (bucket region : Text)
    → is_label region ≡ true
    → is_path_style (regional_host bucket region) ≡ false
unfolding is_path_style
is_path_style-regional_host bucket region label =
    let (l, ls, e) = split_cons (nat_beq 46) bucket in
    rw (regional_split bucket region label, e) (longer_endpoint l region ls label)

-- The bucket is read back from a host at a regional endpoint, whatever full stops its name has, if
-- the region does not begin with `s3`.
pub get_virtual_hosted_style_bucket_round_trip :
    (bucket region : Text)
    → is_bucket bucket ≡ true
    → is_label region ≡ true
    → starts_with (codes "s3") region ≡ false
    → get_virtual_hosted_style_bucket (regional_host bucket region) ≡ some bucket
unfolding get_virtual_hosted_style_bucket bucket_if
get_virtual_hosted_style_bucket_round_trip bucket region valid label other =
    let (l, ls, e) = split_cons (nat_beq 46) bucket in
    rw
      (
        regional_split bucket region label,
        e,
        before_endpoint l ls (regional_labels region) (regional_endpoint region label)
            (no_later_endpoint region label other),
      )
      (ap bucket_if (ap (join (codes ".")) (sym e) ∙ join-split 46 bucket) ∙ ground (arith, valid))
