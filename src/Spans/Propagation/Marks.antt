-- ===== src/Spans/Propagation/Marks.antt =====
-- What starting a span leaves of its mark as a local root, and of its kind.
use aws_otel_js_instrumentat.Prelude.{
  false, not, ◌&&◌, ◌||◌, Option, none, some, List, [], ◌∷◌, String, Text, string_test, ◌==◌,
  lookup-insert, All, if◌then◌else◌, if-cases, ◌≡◌, refl, arith, ◌∙◌, ap,
}
use aws_otel_js_instrumentat.Spans.Model.{
  AttributeValue, text, boolean, internal, consumer, Span, Platform, get, is_key_present,
  set_attribute, same_kind,
}
use aws_otel_js_instrumentat.Spans.Kinds.{
  is_local_root, is_local_root_value, is_aws_sdk_span, get_resource_id,
}
use aws_otel_js_instrumentat.Spans.Propagation.{
  Context, is_local_context, set_is_local_root_information, set_if_present, propagate_keys,
  mark_sdk_descendant, propagate_from_internal, mark_consumer_parent, resource_id_of_parent,
  propagate_resource_id, take_over,
}

pub get-set_attribute :
    (span : Span) (key other : String) (value : AttributeValue)
    → get (set_attribute span key value) other
      ≡ (if key == other then some value else get span other)
unfolding get set_attribute
get-set_attribute span key other value = lookup-insert key other value span.attributes

-- The mark of a local root, and the kind, stay.
pub record Keeps (before after : Span) : Type 0 where
  pub root : is_local_root after ≡ is_local_root before
  pub same : after.kind ≡ before.kind

Keeps-refl : (a : Span) → Keeps a a
Keeps-refl a = record { root = refl; same = refl }

Keeps-trans : {a b c : Span} → Keeps a b → Keeps b c → Keeps a c
Keeps-trans h k = record { root = k.root ∙ h.root; same = k.same ∙ h.same }

set_attribute-Keeps :
    (span : Span) (key : String) (value : AttributeValue)
    → key == "aws.is.local.root" ≡ false
    → Keeps span (set_attribute span key value)
unfolding is_local_root set_attribute
set_attribute-Keeps span key value ne = record {
  root =
      ap is_local_root_value {x = get (set_attribute span key value) "aws.is.local.root"}
        {y = get span "aws.is.local.root"}
        (ground (arith, get-set_attribute span key "aws.is.local.root" value));
  same = refl;
}

set_if_present-Keeps :
    (key : String) (value : Option AttributeValue) (span : Span)
    → key == "aws.is.local.root" ≡ false
    → Keeps span (set_if_present key value span)
unfolding set_if_present
set_if_present-Keeps key none span ne = Keeps-refl span
set_if_present-Keeps key (some value) span ne = set_attribute-Keeps span key value ne

propagate_keys-Keeps :
    (keys : List String) (parent span : Span)
    → All (λ key. key == "aws.is.local.root" ≡ false) keys
    → Keeps span (propagate_keys keys parent span)
unfolding propagate_keys
propagate_keys-Keeps [] parent span h = Keeps-refl span
propagate_keys-Keeps (key ∷ keys) parent span h =
    Keeps-trans (set_if_present-Keeps key (get parent key) span h.0)
      (propagate_keys-Keeps keys parent (set_if_present key (get parent key) span) h.1)

pub is_local_root-set_is_local_root_information :
    (context : Context) (span : Span)
    → is_local_root (set_is_local_root_information context span)
      ≡ (not span.has_parent || not (is_local_context context.span_context))
unfolding set_is_local_root_information is_local_root
is_local_root-set_is_local_root_information context span =
    let mark = boolean (not span.has_parent || not (is_local_context context.span_context)) in
    ap is_local_root_value
      {x = get (set_attribute span "aws.is.local.root" mark) "aws.is.local.root"} {y = some mark}
      (ground (arith, get-set_attribute span "aws.is.local.root" "aws.is.local.root" mark))

module _ (p : Platform) (named : p.names.faas_id == "aws.is.local.root" ≡ false) where
  resource_id_of_parent-Keeps :
      (parent : Span) (resource_id : Option Text) (span : Span)
      → Keeps span (resource_id_of_parent p parent resource_id span)
  unfolding resource_id_of_parent
  resource_id_of_parent-Keeps parent none span = Keeps-refl span
  resource_id_of_parent-Keeps parent (some resource_id) span =
      if-cases (Keeps span) (is_key_present parent "cloud.resource_id")
        (λ _. set_attribute-Keeps span "cloud.resource_id" (text resource_id) refl)
        (λ _. set_attribute-Keeps span p.names.faas_id (text resource_id) named)

  pub take_over-Keeps :
      (keys : List String) (parent : Option Span) (span : Span)
      → All (λ key. key == "aws.is.local.root" ≡ false) keys
      → Keeps span (take_over p keys parent span)
  unfolding take_over mark_sdk_descendant propagate_from_internal mark_consumer_parent
      propagate_resource_id
  take_over-Keeps keys none span h = Keeps-refl span
  take_over-Keeps keys (some parent) span h =
      let marked = mark_sdk_descendant p parent span in
      let propagated = propagate_from_internal p keys parent marked in
      let below = mark_consumer_parent p parent propagated in
      Keeps-trans
        (if-cases (Keeps span) (is_aws_sdk_span p parent)
          (λ _. set_attribute-Keeps span "aws.sdk.descendant" _ refl) (λ _. Keeps-refl _))
        (Keeps-trans
          (if-cases (Keeps marked) (same_kind internal parent.kind)
            (λ _. propagate_keys-Keeps keys parent marked h) (λ _. Keeps-refl _))
          (Keeps-trans
            (if-cases (Keeps propagated)
              (same_kind consumer propagated.kind && same_kind consumer parent.kind)
              (λ _. set_attribute-Keeps propagated "aws.consumer.parent.span.kind" _ refl)
              (λ _. Keeps-refl _))
            (if-cases (Keeps below) _
              (λ _. resource_id_of_parent-Keeps parent (get_resource_id p parent) below)
              (λ _. Keeps-refl _))))
