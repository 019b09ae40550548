-- ===== src/Arns/Arn/RoundTrip.antt =====
-- Reading an ARN back.
use aws_otel_js_instrumentat.Prelude.{
  true, Option, none, some, List, ◌∷◌, Text, codes, nat_beq, all-Lacks, split, join, split-join,
  join-split, same_units, Lacks, All, get_last?, Bool-cases, inl, inr, ap, sym, ◌∙◌, ◌≡◌, refl,
  arith,
}
use aws_otel_js_instrumentat.Spans.Model.{
  AttributeValue, text, boolean, array, number, other, as_text, is_text,
}
use aws_otel_js_instrumentat.Arns.Arn.{
  is_digit, is_account_id, is_arn, parts_of, parse_arn, get_account_id, get_region,
  extract_resource_name_from_arn,
}

-- The fields of an ARN, the resource as one or more parts.
pub record ArnFields : Type 0 where
  pub partition : Text
  pub service : Text
  pub region : Text
  pub account_id : Text
  pub resource : Text
  pub more : List Text

abbrev pub parts_of_fields : ArnFields → List Text
parts_of_fields f =
    codes "arn" ∷ f.partition ∷ f.service ∷ f.region ∷ f.account_id ∷ f.resource ∷ f.more

abbrev pub print_arn : ArnFields → Text
print_arn f = join (codes ":") (parts_of_fields f)

-- An account of digits, and no colon inside a field.
pub record IsArn (f : ArnFields) : Type 0 where
  pub account : is_account_id f.account_id ≡ true
  pub partition_Lacks : Lacks (nat_beq 58) f.partition
  pub service_Lacks : Lacks (nat_beq 58) f.service
  pub region_Lacks : Lacks (nat_beq 58) f.region
  pub resource_Lacks : All (Lacks (nat_beq 58)) (f.resource ∷ f.more)

split-print_arn : (f : ArnFields) → IsArn f → split (nat_beq 58) (print_arn f) ≡ parts_of_fields f
unfolding is_account_id
split-print_arn f h =
    split-join (nat_beq 58) 58 (codes "arn")
      (f.partition ∷ f.service ∷ f.region ∷ f.account_id ∷ f.resource ∷ f.more) refl
      (
        (refl, (refl, (refl, tt))),
        (
          h.partition_Lacks,
          (
            h.service_Lacks,
            (
              h.region_Lacks,
              (
                all-Lacks is_digit 58 f.account_id refl (ground (arith, h.account)),
                h.resource_Lacks,
              ),
            ),
          ),
        ),
      )

parts_of_fields-is_arn : (f : ArnFields) → IsArn f → is_arn (parts_of_fields f) ≡ true
unfolding is_arn is_text same_units
parts_of_fields-is_arn f h = ground (arith, h.account)

parse_arn-print_arn :
    (f : ArnFields) → IsArn f → parse_arn (some (text (print_arn f))) ≡ some (parts_of_fields f)
unfolding parse_arn as_text
parse_arn-print_arn f h = rw (split-print_arn f h, parts_of_fields-is_arn f h) refl

-- From an ARN the parser reads back the region, the account and, as the resource's name, the last
-- part of the resource.
pub arn_round_trip :
    (f : ArnFields)
    → IsArn f
    → (get_region (some (text (print_arn f))) ≡ some f.region)
      × (get_account_id (some (text (print_arn f))) ≡ some f.account_id)
      × (extract_resource_name_from_arn (some (text (print_arn f)))
          ≡ get_last? (f.resource ∷ f.more))
unfolding get_region get_account_id extract_resource_name_from_arn
arn_round_trip f h = rw (parse_arn-print_arn f h) (refl, refl, refl)

parts_of-eq :
    (t : Text) (parts : List Text)
    → parts_of t ≡ some parts
    → (split (nat_beq 58) t ≡ parts) × (is_arn parts ≡ true)
unfolding parts_of
parts_of-eq t parts h = elim (Bool-cases (is_arn (split (nat_beq 58) t))) [
  | inl b ↦ (
    ground arith,
    ground (arith, ap is_arn {x = split (nat_beq 58) t} {y = parts} (ground arith)),
  )
  | inr b ↦ absurd (ground arith)
]

-- What is accepted as an ARN is the text of its parts: `arn` first, at least six of them, the fifth
-- an account.
pub parse_arn-join :
    (value : Option AttributeValue) (parts : List Text)
    → parse_arn value ≡ some parts
    → (value ≡ some (text (join (codes ":") parts))) × (is_arn parts ≡ true)
unfolding parse_arn as_text
parse_arn-join none parts h = ground arith
parse_arn-join (some (boolean b)) parts h = ground arith
parse_arn-join (some (array elements t)) parts h = ground arith
parse_arn-join (some (number n t)) parts h = ground arith
parse_arn-join (some (other truth t)) parts h = ground arith
parse_arn-join (some (text t)) parts h =
    let (e, good) = parts_of-eq t parts h in
    (ap (λ (s : Text). some (text s)) (sym (join-split 58 t) ∙ ap (join (codes ":")) e), good)
