-- ===== src/Spans/Recording.antt =====
-- always-record-sampler.ts and aws-batch-unsampled-span-processor.ts: spans that are recorded and
-- exported though they are not sampled.
use aws_otel_js_instrumentat.Prelude.{
  ℕ, Bool, true, false, not, List, Text, nat_beq, ◌%◌, if◌then◌else◌, ◌≡◌, refl, ap, arith,
}
use aws_otel_js_instrumentat.Spans.Model.{boolean, Attributes, Span, set_attribute}

pub data SamplingDecision : Type 0 where
  not_record : SamplingDecision
  record_only : SamplingDecision
  record_and_sampled : SamplingDecision

pub record SamplingResult : Type 0 where
  pub decision : SamplingDecision
  pub attributes : Attributes
  pub trace_state : Text

unfoldable pub wrap_result_with_record_only_result : SamplingResult → SamplingResult
wrap_result_with_record_only_result result = record {
  decision = record_only;
  attributes = result.attributes;
  trace_state = result.trace_state;
}

by_decision : SamplingDecision → SamplingResult → SamplingResult
unfolding wrap_result_with_record_only_result
by_decision not_record result = wrap_result_with_record_only_result result
by_decision record_only result = result
by_decision record_and_sampled result = result

-- `shouldSample`, of what the root sampler answers.
unfoldable pub should_sample : SamplingResult → SamplingResult
unfolding by_decision
should_sample result = by_decision result.decision result

abbrev pub is_sampled : SamplingDecision → Bool
is_sampled record_and_sampled = true
is_sampled _ = false

abbrev pub is_recorded : SamplingDecision → Bool
is_recorded not_record = false
is_recorded _ = true

decision_kept :
    (d : SamplingDecision) (r : SamplingResult)
    → r.decision ≡ d
    → (is_recorded (by_decision d r).decision ≡ true)
      × (is_sampled (by_decision d r).decision ≡ is_sampled r.decision)
unfolding by_decision wrap_result_with_record_only_result
decision_kept not_record r e = (refl, ground (arith, ap is_sampled e))
decision_kept record_only r e = (ground (arith, ap is_recorded e), refl)
decision_kept record_and_sampled r e = (ground (arith, ap is_recorded e), refl)

-- Every span is recorded, and is sampled exactly where the root sampler samples it.
pub should_sample-is_recorded :
    (r : SamplingResult)
    → (is_recorded (should_sample r).decision ≡ true)
      × (is_sampled (should_sample r).decision ≡ is_sampled r.decision)
unfolding should_sample
should_sample-is_recorded r = decision_kept r.decision r refl

-- `(traceFlags & TraceFlags.SAMPLED) === 1`
unfoldable pub has_sampled_flag : ℕ → Bool
has_sampled_flag trace_flags = nat_beq (trace_flags % 2) 1

unfoldable pub on_start : ℕ → Span → Span
on_start trace_flags span =
    if not (has_sampled_flag trace_flags)
    then set_attribute span "aws.trace.flag.sampled" (boolean false)
    else span

-- The spans for export, and whether the processor has been shut down. `_addToBuffer` of the SDK's
-- class is an argument.
pub record Processor : Type 0 where
  pub is_shut_down : Bool
  pub buffer : List Span

unfoldable pub on_end : (Span → List Span → List Span) → ℕ → Span → Processor → Processor
on_end add_to_buffer trace_flags span processor =
    if processor.is_shut_down
    then processor
    else if has_sampled_flag trace_flags
    then processor
    else record processor { buffer = add_to_buffer span processor.buffer }
