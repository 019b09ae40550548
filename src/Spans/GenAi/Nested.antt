-- ===== src/Spans/GenAi/Nested.antt =====
-- Which spans of nested calls stay client spans.
use aws_otel_js_instrumentat.Prelude.{
  true, false, Option, none, some, List, [], ◌∷◌, Text, same_units_iff, All, text_test, has_key,
  has_key-insert, has_key-erase_other, erase, is_empty, ◌≡◌, refl, sym, subst, ◌∙◌, arith,
}
use aws_otel_js_instrumentat.Spans.Model.{internal, client, is_text, same_kind}
use aws_otel_js_instrumentat.Spans.GenAi.{
  EndedSpan, Parents, is_llm_span, note_parent, make_internal, without_child, on_end, end_all,
}

-- A client span that calls a language model, and is not its own parent.
pub record IsCall (ended : EndedSpan) : Type 0 where
  pub kind : same_kind client ended.span.kind ≡ true
  pub llm : is_llm_span ended.span ≡ true
  pub own : is_text ended.parent_span_id ended.span_id ≡ false

-- The spans of one call, each the parent of the one before it.
abbrev pub IsNest : EndedSpan → List EndedSpan → Type 0
IsNest inner [] = IsCall inner
IsNest inner (outer ∷ rest) =
    IsCall inner
    × (inner.parent_span_id ≡ some outer.span_id)
    × (is_empty outer.span_id ≡ false)
    × IsNest outer rest

abbrev pub IsInternal : EndedSpan → Type 0
IsInternal ended = same_kind internal ended.span.kind ≡ true

abbrev pub OneClient : List EndedSpan → Type 0
OneClient [] = ⊥
OneClient (first ∷ rest) = (same_kind client first.span.kind ≡ true) × All IsInternal rest

-- A span whose id has been noted becomes internal, and is noted no longer.
noted_becomes_internal :
    (ended : EndedSpan) (parents : Parents)
    → IsCall ended
    → has_key ended.span_id (note_parent ended.parent_span_id parents) ≡ true
    → on_end ended parents
      ≡ (make_internal ended, erase ended.span_id (note_parent ended.parent_span_id parents))
unfolding on_end without_child
noted_becomes_internal ended parents call noted = rw (call.kind, call.llm, noted) refl

stays_client :
    (ended : EndedSpan) (parents : Parents)
    → IsCall ended
    → has_key ended.span_id (note_parent ended.parent_span_id parents) ≡ false
    → on_end ended parents ≡ (ended, note_parent ended.parent_span_id parents)
unfolding on_end without_child
stays_client ended parents call absent = rw (call.kind, call.llm, absent) refl

noted_before :
    (parent : Option Text) (id : Text) (parents : Parents)
    → has_key id parents ≡ true
    → has_key id (note_parent parent parents) ≡ true
unfolding note_parent
noted_before none id parents h = h
noted_before (some parent) id parents h = ground (arith, has_key-insert parent id true parents)

not_noted :
    (parent : Option Text) (id : Text) (parents : Parents)
    → is_text parent id ≡ false
    → has_key id (note_parent parent parents) ≡ has_key id parents
unfolding note_parent is_text
not_noted none id parents own = refl
not_noted (some parent) id parents own = ground (arith, has_key-insert parent id true parents)

parent_noted :
    (parent : Option Text) (id : Text) (parents : Parents)
    → parent ≡ some id
    → is_empty id ≡ false
    → has_key id (note_parent parent parents) ≡ true
unfolding note_parent
parent_noted none id parents e present = ground arith
parent_noted (some parent) id parents e present =
    ground (arith, has_key-insert parent id true parents, same_units_iff parent id)

-- The parent of a span that has ended is noted.
parent_held :
    (inner outer : EndedSpan) (parents : Parents)
    → is_text inner.parent_span_id inner.span_id ≡ false
    → inner.parent_span_id ≡ some outer.span_id
    → is_empty outer.span_id ≡ false
    → has_key outer.span_id (erase inner.span_id (note_parent inner.parent_span_id parents)) ≡ true
unfolding is_text
parent_held inner outer parents own parent present =
    has_key-erase_other inner.span_id outer.span_id (note_parent inner.parent_span_id parents) (
      ground (
        arith,
        same_units_iff inner.span_id outer.span_id,
        same_units_iff outer.span_id inner.span_id,
      ))
    ∙ parent_noted inner.parent_span_id outer.span_id parents parent present

-- All spans after one that has been noted become internal.
end_all-All-IsInternal :
    (ended : EndedSpan) (rest : List EndedSpan) (parents : Parents)
    → IsNest ended rest
    → has_key ended.span_id parents ≡ true
    → All IsInternal (end_all (ended ∷ rest) parents)
unfolding end_all make_internal same_kind
end_all-All-IsInternal ended [] parents nest noted =
    rw (noted_becomes_internal ended parents nest (noted_before _ ended.span_id parents noted))
      (refl, tt)
end_all-All-IsInternal ended (outer ∷ rest) parents (call, parent, present, nest) noted =
    subst
      (λ (r : EndedSpan × Parents). IsInternal r.0 × All IsInternal (end_all (outer ∷ rest) r.1))
      (sym (noted_becomes_internal ended parents call (noted_before _ ended.span_id parents noted)))
      (
        refl,
        end_all-All-IsInternal outer rest _ nest
            (parent_held ended outer parents call.own parent present),
      )

-- Of nested client spans that report one call, ended from the innermost one outwards, the innermost
-- one alone stays a client span and all others become internal, if the innermost one was not noted
-- as a parent before.
pub innermost_stays_client :
    (inner : EndedSpan) (rest : List EndedSpan) (parents : Parents)
    → IsNest inner rest
    → has_key inner.span_id parents ≡ false
    → OneClient (end_all (inner ∷ rest) parents)
unfolding end_all
innermost_stays_client inner [] parents call absent =
    rw (stays_client inner parents call (not_noted _ inner.span_id parents call.own ∙ absent))
      (call.kind, tt)
innermost_stays_client inner (outer ∷ rest) parents (call, parent, present, nest) absent =
    subst
      (λ (r : EndedSpan × Parents).
        (same_kind client r.0.span.kind ≡ true) × All IsInternal (end_all (outer ∷ rest) r.1))
      (sym (stays_client inner parents call (not_noted _ inner.span_id parents call.own ∙ absent)))
      (
        call.kind,
        end_all-All-IsInternal outer rest (note_parent inner.parent_span_id parents) nest
            (parent_noted inner.parent_span_id outer.span_id parents parent present),
      )
