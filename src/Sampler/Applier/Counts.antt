-- ===== src/Sampler/Applier/Counts.antt =====
-- The counters that sampler/sampling-rule-applier.ts reports, against the decisions it makes.
use aws_otel_js_instrumentat.Prelude.{
  ℕ, ◌+◌, ◌≤◌, Bool, List, [], ◌∷◌, String, if◌then◌else◌, ◌≡◌, refl, ap, arith,
}
use aws_otel_js_instrumentat.Sampler.Applier.{
  SamplingRuleApplier, Statistics, should_sample, snapshot_statistics, decide, ask_reservoir,
  count_decision, one_if, reset_statistics,
}

pub data Event : Type 0 where
  request : (now : ℕ) (trace_id : String) → Event
  report : Event

module _ (ratio : ℕ → String → Bool) where
  unfoldable pub step : SamplingRuleApplier → Event → SamplingRuleApplier
  step a (request now trace_id) = (should_sample ratio a now trace_id).1
  step a report = (snapshot_statistics a).1

  -- What an event adds to the reports.
  abbrev pub reported : SamplingRuleApplier → Event → Statistics
  reported a (request now trace_id) = record {
    request_count = 0;
    sample_count = 0;
    borrow_count = 0;
  }
  reported a report = (snapshot_statistics a).0

  -- The counts of all reports, with those that the next one will hold.
  unfoldable pub all_requests : SamplingRuleApplier → List Event → ℕ
  all_requests a [] = a.statistics.request_count
  all_requests a (e ∷ es) = (reported a e).request_count + all_requests (step a e) es

  unfoldable pub all_samples : SamplingRuleApplier → List Event → ℕ
  all_samples a [] = a.statistics.sample_count
  all_samples a (e ∷ es) = (reported a e).sample_count + all_samples (step a e) es

  unfoldable pub all_borrows : SamplingRuleApplier → List Event → ℕ
  all_borrows a [] = a.statistics.borrow_count
  all_borrows a (e ∷ es) = (reported a e).borrow_count + all_borrows (step a e) es

  abbrev pub requests : List Event → ℕ
  requests [] = 0
  requests (request now trace_id ∷ es) = 1 + requests es
  requests (report ∷ es) = requests es

  unfoldable pub sampled : SamplingRuleApplier → List Event → ℕ
  sampled a [] = 0
  sampled a (request now trace_id ∷ es) =
      let rest = sampled (step a (request now trace_id)) es in
      (if (should_sample ratio a now trace_id).0 then 1 else 0) + rest
  sampled a (report ∷ es) = sampled (step a report) es

  -- A request counts one, and its decision counts as sampled; a borrowed decision is a sampled one.
  step-request :
      (a : SamplingRuleApplier) (now : ℕ) (trace_id : String)
      → let s = (step a (request now trace_id)).statistics in
        (s.request_count ≡ 1 + a.statistics.request_count)
        × ((s.sample_count
              ≡ (if (should_sample ratio a now trace_id).0 then 1 else 0)
                + a.statistics.sample_count)
            × (s.borrow_count + a.statistics.sample_count
                ≤ a.statistics.borrow_count + s.sample_count))
  unfolding step should_sample decide ask_reservoir count_decision one_if
  step-request a now trace_id = ground arith

  step-report :
      (a : SamplingRuleApplier)
      → let s = (step a report).statistics in
        (reported a report ≡ a.statistics)
        × ((s.request_count ≡ 0) × ((s.sample_count ≡ 0) × (s.borrow_count ≡ 0)))
  unfolding step snapshot_statistics
  step-report a = (refl, (refl, (refl, refl)))

  all_requests-requests :
      (a : SamplingRuleApplier) (es : List Event)
      → all_requests a es ≡ a.statistics.request_count + requests es
  unfolding all_requests
  all_requests-requests a [] = omega arith
  all_requests-requests a (request now trace_id ∷ es) = omega (
    arith,
    all_requests-requests (step a (request now trace_id)) es,
    (step-request a now trace_id).0,
  )
  all_requests-requests a (report ∷ es) =
      let (same, (zero_requests, _)) = step-report a in
      omega (
        arith,
        all_requests-requests (step a report) es,
        ap (λ (s : Statistics). s.request_count) same,
        zero_requests,
      )

  all_samples-sampled :
      (a : SamplingRuleApplier) (es : List Event)
      → all_samples a es ≡ a.statistics.sample_count + sampled a es
  unfolding all_samples sampled
  all_samples-sampled a [] = omega arith
  all_samples-sampled a (request now trace_id ∷ es) = omega (
    arith,
    all_samples-sampled (step a (request now trace_id)) es,
    (step-request a now trace_id).1.0,
  )
  all_samples-sampled a (report ∷ es) =
      let (same, (_, (zero_samples, _))) = step-report a in
      omega (
        arith,
        all_samples-sampled (step a report) es,
        ap (λ (s : Statistics). s.sample_count) same,
        zero_samples,
      )

  all_borrows-le :
      (a : SamplingRuleApplier) (es : List Event)
      → all_borrows a es + a.statistics.sample_count ≤ a.statistics.borrow_count + all_samples a es
  unfolding all_borrows all_samples
  all_borrows-le a [] = omega arith
  all_borrows-le a (request now trace_id ∷ es) =
      omega (
        arith,
        all_borrows-le (step a (request now trace_id)) es,
        (step-request a now trace_id).1.1,
      )
  all_borrows-le a (report ∷ es) =
      let (same, (_, (zero_samples, zero_borrows))) = step-report a in
      omega (
        arith,
        all_borrows-le (step a report) es,
        ap (λ (s : Statistics). s.sample_count) same,
        ap (λ (s : Statistics). s.borrow_count) same,
        zero_samples,
        zero_borrows,
      )

  -- Requests and reports in any order on a rule whose counters start at 0: the reports, with the
  -- counters that the next one will hold, count every request and every sampled decision once, and
  -- no more borrowed decisions than sampled ones.
  pub reports_count_decisions :
      (a : SamplingRuleApplier) (es : List Event)
      → a.statistics ≡ reset_statistics
      → (all_requests a es ≡ requests es)
        × ((all_samples a es ≡ sampled a es) × (all_borrows a es ≤ all_samples a es))
  reports_count_decisions a es fresh =
      let no_requests = ap (λ (s : Statistics). s.request_count) fresh in
      let no_samples = ap (λ (s : Statistics). s.sample_count) fresh in
      let no_borrows = ap (λ (s : Statistics). s.borrow_count) fresh in
      (
        omega (arith, all_requests-requests a es, no_requests),
        (
          omega (arith, all_samples-sampled a es, no_samples),
          omega (arith, all_borrows-le a es, no_borrows),
        ),
      )
