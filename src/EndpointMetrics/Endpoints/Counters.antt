-- ===== src/EndpointMetrics/Endpoints/Counters.antt =====
-- The counters of serviceevents/collectors/endpoint-collector.ts against the requests recorded.
use aws_otel_js_instrumentat.Prelude.{
  ℕ, suc, ◌+◌, Bool, true, false, ◌&&◌, Option, none, some, List, [], ◌∷◌, String, ltb, leb,
  if◌then◌else◌, ◌==◌, nat_test, string_test, lookup, insert, decimal, lookup-insert, ◌≡◌, refl,
  ◌∙◌, arith,
}
use aws_otel_js_instrumentat.EndpointMetrics.Endpoints.{
  ErrorData, ErrorInfo, EndpointAggregation, Aggregations, Request, operation_of, error_key,
  record_request, count_request, count_breakdown, breakdown_of, add_breakdown, add_failure,
  count_error, or_no_failures, or_new, or_new_error, new_aggregation, count_duration, count_status,
}

-- How many of the requests to an operation pass a test, and their total duration.
abbrev pub tally : (Request → ℕ) → String → List Request → ℕ
tally f operation [] = 0
tally f operation (r ∷ rs) = (if operation_of r == operation then f r else 0) + tally f operation rs

abbrev pub fault : Request → ℕ
fault r = if leb 500 r.status_code then 1 else 0

abbrev pub client_error : Request → ℕ
client_error r = if leb 400 r.status_code && ltb r.status_code 500 then 1 else 0

abbrev pub is_described : Option ErrorInfo → Bool
is_described none = false
is_described (some i) = true

abbrev pub described_fault : Request → ℕ
described_fault r = if leb 500 r.status_code && is_described r.error_info then 1 else 0

-- A measure of an operation's counters, 0 when there are none.
abbrev pub measured : (EndpointAggregation → ℕ) → String → Aggregations → ℕ
measured f operation m = elim (lookup operation m) [ none ↦ 0 | some a ↦ f a ]

unfoldable pub value_total {ℓ} : {V : Type ℓ} → (V → ℕ) → List (String × V) → ℕ
value_total g [] = 0
value_total g ((k, v) ∷ m) = g v + value_total g m

pub value_total-insert {ℓ} :
    {V : Type ℓ} (g : V → ℕ) (k : String) (v : V) (m : List (String × V))
    → value_total g (insert k v m) + (elim (lookup k m) [ none ↦ 0 | some w ↦ g w ])
      ≡ value_total g m + g v
unfolding value_total insert lookup
value_total-insert g k v [] = omega arith
value_total-insert g k v ((j, w) ∷ m) = ground (arith, value_total-insert g k v m)

abbrev failure_total : List (String × ErrorData) → ℕ
failure_total = value_total (λ (d : ErrorData). d.count)

abbrev pub breakdown_total : List (String × List (String × ErrorData)) → ℕ
breakdown_total = value_total failure_total

or_new_error-count :
    (o : Option ErrorData) (i : ErrorInfo)
    → (or_new_error o i).count ≡ (elim o [ none ↦ 0 | some w ↦ w.count ])
unfolding or_new_error
or_new_error-count none i = refl
or_new_error-count (some w) i = refl

or_no_failures-total :
    (o : Option (List (String × ErrorData)))
    → failure_total (or_no_failures o) ≡ (elim o [ none ↦ 0 | some w ↦ failure_total w ])
unfolding or_no_failures value_total
or_no_failures-total none = refl
or_no_failures-total (some w) = refl

add_failure-total :
    (i : ErrorInfo) (m : List (String × ErrorData))
    → failure_total (add_failure i m) ≡ suc (failure_total m)
unfolding add_failure count_error
add_failure-total i m = omega (
  arith,
  or_new_error-count (lookup (error_key i) m) i,
  value_total-insert (λ (d : ErrorData). d.count) (error_key i)
      (count_error (or_new_error (lookup (error_key i) m) i)) m,
)

add_breakdown-total :
    (k : String) (i : ErrorInfo) (m : List (String × List (String × ErrorData)))
    → breakdown_total (add_breakdown k i m) ≡ suc (breakdown_total m)
unfolding add_breakdown or_no_failures
add_breakdown-total k i m = omega (
  arith,
  or_no_failures-total (lookup k m),
  add_failure-total i (or_no_failures (lookup k m)),
  value_total-insert failure_total k (add_failure i (or_no_failures (lookup k m))) m,
)

breakdown_of-total :
    (status_code : ℕ) (info : Option ErrorInfo) (m : List (String × List (String × ErrorData)))
    → breakdown_total (breakdown_of status_code info m)
      ≡ breakdown_total m + (if leb 500 status_code && is_described info then 1 else 0)
unfolding breakdown_of
breakdown_of-total status_code none m = ground arith
breakdown_of-total status_code (some i) m =
    ground (arith, add_breakdown-total (decimal status_code) i m)

unfoldable pub record_requests : (ℕ → ℕ) → List Request → Aggregations → Aggregations
record_requests log_bucket [] m = m
record_requests log_bucket (r ∷ rs) m =
    record_requests log_bucket rs (record_request log_bucket r m)

module _ (log_bucket : ℕ → ℕ) (f : EndpointAggregation → ℕ) (g : Request → ℕ)
    (new_zero : (r : Request) → f (new_aggregation r) ≡ 0)
    (counted : (r : Request) (a : EndpointAggregation)
      → f (count_request log_bucket r a) ≡ f a + g r) where
  or_new-measured :
      (o : Option EndpointAggregation) (r : Request)
      → f (or_new o r) ≡ (elim o [ none ↦ 0 | some a ↦ f a ])
  unfolding or_new
  or_new-measured none r = new_zero r
  or_new-measured (some a) r = refl

  record_request-measured :
      (operation : String) (r : Request) (m : Aggregations)
      → measured f operation (record_request log_bucket r m)
        ≡ measured f operation m + (if operation_of r == operation then g r else 0)
  unfolding record_request
  record_request-measured operation r m = ground (
    arith,
    string_test.same_iff (operation_of r) operation,
    lookup-insert (operation_of r) operation
        (count_request log_bucket r (or_new (lookup (operation_of r) m) r)) m,
    counted r (or_new (lookup (operation_of r) m) r),
    or_new-measured (lookup (operation_of r) m) r,
  )

  record_requests-measured :
      (operation : String) (rs : List Request) (m : Aggregations)
      → measured f operation (record_requests log_bucket rs m)
        ≡ measured f operation m + tally g operation rs
  unfolding record_requests
  record_requests-measured operation [] m = omega arith
  record_requests-measured operation (r ∷ rs) m = omega (
    arith,
    record_requests-measured operation rs (record_request log_bucket r m),
    record_request-measured operation r m,
  )

  measured_from_empty :
      (operation : String) (rs : List Request)
      → measured f operation (record_requests log_bucket rs []) ≡ tally g operation rs
  unfolding lookup
  measured_from_empty operation rs = record_requests-measured operation rs [] ∙ omega arith

-- The counters of an operation after any requests to any operations: its count, faults (5xx),
-- client errors (4xx) and total duration are those of the requests to it, and the counts of its
-- error breakdown add up to the faults that came with error information.
pub counters_of_requests :
    (log_bucket : ℕ → ℕ) (operation : String) (rs : List Request)
    → let m = record_requests log_bucket rs [] in
      (measured (λ a. a.count) operation m ≡ tally (λ _. 1) operation rs)
      × ((measured (λ a. a.faults) operation m ≡ tally fault operation rs)
          × ((measured (λ a. a.errors) operation m ≡ tally client_error operation rs)
              × ((measured (λ a. a.sum_duration) operation m
                    ≡ tally (λ r. r.duration_ns) operation rs)
                  × (measured (λ a. breakdown_total a.error_breakdown) operation m
                      ≡ tally described_fault operation rs))))
unfolding count_request count_status count_duration count_breakdown new_aggregation value_total
counters_of_requests log_bucket operation rs = (
  measured_from_empty log_bucket (λ a. a.count) (λ _. 1) (λ r. refl) (λ r a. ground arith) operation
      rs,
  (
    measured_from_empty log_bucket (λ a. a.faults) fault (λ r. refl) (λ r a. ground arith) operation
        rs,
    (
      measured_from_empty log_bucket (λ a. a.errors) client_error (λ r. refl) (λ r a. ground arith)
          operation rs,
      (
        measured_from_empty log_bucket (λ a. a.sum_duration) (λ r. r.duration_ns) (λ r. refl)
            (λ r a. ground arith) operation rs,
        measured_from_empty log_bucket (λ a. breakdown_total a.error_breakdown) described_fault
            (λ r. refl)
            (λ r a. ground (arith, breakdown_of-total r.status_code r.error_info a.error_breakdown))
            operation rs,
      ),
    ),
  ),
)
