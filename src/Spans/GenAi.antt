-- ===== src/Spans/GenAi.antt =====
-- gen-ai-nested-client-span-processor.ts: calls of language models that two instrumentations report.
pub mod Nested
use aws_otel_js_instrumentat.Prelude.{
  Bool, true, false, not, ◌&&◌, ◌||◌, Option, none, some, List, [], ◌∷◌, Text, codes, ◌==◌,
  text_test, has_key, erase, insert, is_empty, if◌then◌else◌,
}
use aws_otel_js_instrumentat.Spans.Model.{
  AttributeValue, internal, client, Span, same_kind, as_text, is_text, get,
}

-- A span that ends, with its id and that of its parent.
pub record EndedSpan : Type 0 where
  pub span : Span
  pub span_id : Text
  pub parent_span_id : Option Text

-- `_hasGenAiClientChild`
abbrev pub Parents : Type 0
Parents = List (Text × Bool)

unfoldable pub is_llm_span : Span → Bool
is_llm_span span =
    let operation_name = as_text (get span "gen_ai.operation.name") in
    is_text operation_name (codes "chat")
    || is_text operation_name (codes "text_completion")
    || is_text operation_name (codes "generate_content")
    || is_text operation_name (codes "embeddings")

unfoldable pub note_parent : Option Text → Parents → Parents
note_parent none parents = parents
note_parent (some parent_span_id) parents =
    if is_empty parent_span_id then parents else insert parent_span_id true parents

make_internal : EndedSpan → EndedSpan
make_internal ended = record ended { span = record ended.span { kind = internal } }

-- `delete` tells whether the span was there.
without_child : EndedSpan → Parents → EndedSpan × Parents
unfolding make_internal
without_child ended parents =
    if has_key ended.span_id parents
    then (make_internal ended, erase ended.span_id parents)
    else (ended, parents)

unfoldable pub on_end : EndedSpan → Parents → EndedSpan × Parents
unfolding without_child
on_end ended parents =
    if not (same_kind client ended.span.kind)
    then (ended, parents)
    else if is_llm_span ended.span
    then without_child ended (note_parent ended.parent_span_id parents)
    else (ended, note_parent ended.parent_span_id parents)

-- The spans as they are once all have ended, one after the other.
unfoldable pub end_all : List EndedSpan → Parents → List EndedSpan
end_all [] parents = []
end_all (ended ∷ rest) parents =
    let (after, held) = on_end ended parents in after ∷ end_all rest held

unfoldable pub shutdown : Parents → Parents
shutdown parents = []
