-- ===== src/MetricAttributes/Exporter/Exported.antt =====
-- The attributes of a span that is exported with the attributes of both metrics.
use aws_otel_js_instrumentat.Prelude.{
  Bool-cases, inl, inr, true, false, Option, some, [], ◌∷◌, String, codes, string_test, ◌==◌,
  lookup, insert, erase, lookup-insert, lookup-erase, lookup-has_key, has_key, is_empty, IsMap,
  insert-IsMap, erase-IsMap, or_else, or_else-none, subst, ◌≡◌, refl, ap, ◌∙◌, arith, if◌then◌else◌,
}
use aws_otel_js_instrumentat.Spans.Model.{AttributeValue, text, Attributes, Span, Platform, get}
use aws_otel_js_instrumentat.Spans.Kinds.{
  should_generate_service_metric_attributes, should_generate_dependency_metric_attributes,
}
use aws_otel_js_instrumentat.MetricAttributes.Generator.{
  generate_dependency_metric_attributes, generate_metric_attribute_map_from_span,
}
use aws_otel_js_instrumentat.MetricAttributes.Generator.Unique.{
  generate_dependency_metric_attributes-IsMap,
}
use aws_otel_js_instrumentat.MetricAttributes.Exporter.{
  present_or_empty, copy_attributes_with_local_root, assign, wrap_span_with_attributes, wrap_if_any,
  chosen_attributes, add_metric_attributes_to,
}

or_else_first :
    (key j : String) (value : AttributeValue) (attributes : Attributes)
    (second : Option AttributeValue)
    → has_key key attributes ≡ false
    → or_else (lookup j attributes) (if key == j then some value else second)
      ≡ or_else (if key == j then some value else lookup j attributes) second
unfolding or_else
or_else_first key j value attributes second absent = elim (Bool-cases (key == j)) [
  | inl b ↦
      rw
        (
          b,
          lookup-has_key j attributes
              (subst (λ k. has_key k attributes ≡ false) ((string_test.same_iff key j).0 b) absent),
        )
        refl
  | inr b ↦ rw b refl
]

-- The value that assigned attributes leave: their own one, and else the one before.
lookup-assign :
    (j : String) (held attributes : Attributes)
    → IsMap attributes
    → lookup j (assign held attributes) ≡ or_else (lookup j attributes) (lookup j held)
unfolding assign lookup or_else
lookup-assign j held [] unique = refl
lookup-assign j held ((key, value) ∷ attributes) (absent, unique) =
    lookup-assign j (insert key value held) attributes unique
    ∙ ap (or_else (lookup j attributes)) (lookup-insert key j value held)
    ∙ or_else_first key j value attributes (lookup j held) absent

get-wrap_span_with_attributes :
    (span : Span) (attributes : Attributes) (j : String)
    → IsMap span.attributes
    → IsMap attributes
    → get (wrap_span_with_attributes span attributes) j ≡ or_else (lookup j attributes) (get span j)
unfolding wrap_span_with_attributes get lookup
get-wrap_span_with_attributes span attributes j once unique =
    lookup-assign j (assign [] span.attributes) attributes unique
    ∙ ap (or_else (lookup j attributes)) (lookup-assign j [] span.attributes once ∙ or_else-none _)

lookup-copy_attributes_with_local_root :
    (j : String) (m : Attributes)
    → IsMap m
    → lookup j (copy_attributes_with_local_root m)
      ≡ (if "aws.span.kind" == j then some (text (codes "LOCAL_ROOT")) else lookup j m)
unfolding copy_attributes_with_local_root
lookup-copy_attributes_with_local_root j m unique =
    lookup-insert "aws.span.kind" j _ (erase "aws.span.kind" m)
    ∙ ground (arith, lookup-erase "aws.span.kind" j m unique)

insert-is_empty :
    (key : String) (value : AttributeValue) (m : Attributes) → is_empty (insert key value m) ≡ false
unfolding insert
insert-is_empty key value [] = refl
insert-is_empty key value ((k, v) ∷ m) = ground arith

copied_present : (m : Attributes) → is_empty (copy_attributes_with_local_root m) ≡ false
unfolding copy_attributes_with_local_root
copied_present m = insert-is_empty "aws.span.kind" _ (erase "aws.span.kind" m)

copied-IsMap : (m : Attributes) → IsMap m → IsMap (copy_attributes_with_local_root m)
unfolding copy_attributes_with_local_root
copied-IsMap m unique = insert-IsMap _ _ _ (erase-IsMap "aws.span.kind" m unique)

wrapped :
    (span : Span) (attributes : Attributes)
    → is_empty attributes ≡ false
    → wrap_if_any span (some attributes) ≡ wrap_span_with_attributes span attributes
unfolding wrap_if_any
wrapped span attributes present = rw present refl

added :
    (p : Platform) (resource : Attributes) (span : Span)
    → should_generate_service_metric_attributes p span ≡ true
    → should_generate_dependency_metric_attributes p span ≡ true
    → add_metric_attributes_to p resource span
      ≡ wrap_if_any span (
          some (
            copy_attributes_with_local_root
              (generate_dependency_metric_attributes p span resource)))
unfolding add_metric_attributes_to chosen_attributes present_or_empty
    generate_metric_attribute_map_from_span
added p resource span service dependency = rw (service, dependency) refl

-- A local root that counts for both metrics is exported with the attributes of the dependency
-- metric, the kind `LOCAL_ROOT`, and its own attributes for all other names.
pub exported_attributes :
    (p : Platform) (resource : Attributes) (span : Span) (j : String)
    → IsMap span.attributes
    → should_generate_service_metric_attributes p span ≡ true
    → should_generate_dependency_metric_attributes p span ≡ true
    → get (add_metric_attributes_to p resource span) j
      ≡ or_else
          (if "aws.span.kind" == j
            then some (text (codes "LOCAL_ROOT"))
            else lookup j (generate_dependency_metric_attributes p span resource))
          (get span j)
exported_attributes p resource span j once service dependency =
    let m = generate_dependency_metric_attributes p span resource in
    let unique = generate_dependency_metric_attributes-IsMap p span resource in
    ap (λ (s : Span). get s j)
      (added p resource span service dependency
        ∙ wrapped span (copy_attributes_with_local_root m) (copied_present m))
    ∙ get-wrap_span_with_attributes span (copy_attributes_with_local_root m) j once
        (copied-IsMap m unique)
    ∙ ap (λ (a : Option AttributeValue). or_else a (get span j))
        (lookup-copy_attributes_with_local_root j m unique)
