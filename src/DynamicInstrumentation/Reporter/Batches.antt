-- ===== src/DynamicInstrumentation/Reporter/Batches.antt =====
-- The requests that dynamic-instrumentation/status-reporter.ts cuts a report into.
use aws_otel_js_instrumentat.Prelude.{
  ℕ, zero, suc, ◌≤◌, List, [], ◌∷◌, ◌++◌, length, take, drop, concat, All, ◌≡◌, refl, ap, ◌∙◌,
  arith, take-append-drop, length-take, length-drop,
}
use aws_otel_js_instrumentat.DynamicInstrumentation.Registry.{Registry}
use aws_otel_js_instrumentat.DynamicInstrumentation.Reporter.{
  StatusEntry, max_configs_per_status_report, collect_statuses, requests_of, report,
}

concat-requests_of :
    (fuel : ℕ) (entries : List StatusEntry)
    → length entries ≤ fuel
    → concat (requests_of fuel entries) ≡ entries
unfolding requests_of
concat-requests_of zero [] h = refl
concat-requests_of zero (e ∷ es) h = ground arith
concat-requests_of (suc fuel) [] h = refl
concat-requests_of (suc fuel) (e ∷ es) h =
    ap (λ rest. take max_configs_per_status_report (e ∷ es) ++ rest)
      (concat-requests_of fuel (drop max_configs_per_status_report (e ∷ es))
        (omega (arith, length-drop max_configs_per_status_report (e ∷ es))))
    ∙ take-append-drop max_configs_per_status_report (e ∷ es)

-- 1 to 100 entries.
abbrev pub IsSized : List StatusEntry → Type 0
IsSized entries = (1 ≤ length entries) × (length entries ≤ max_configs_per_status_report)

requests_of-IsSized :
    (fuel : ℕ) (entries : List StatusEntry) → All IsSized (requests_of fuel entries)
unfolding requests_of
requests_of-IsSized zero entries = tt
requests_of-IsSized (suc fuel) [] = tt
requests_of-IsSized (suc fuel) (e ∷ es) = (
  (
    omega (arith, length-take max_configs_per_status_report (e ∷ es)),
    omega (arith, length-take max_configs_per_status_report (e ∷ es)),
  ),
  requests_of-IsSized fuel (drop max_configs_per_status_report (e ∷ es)),
)

-- A report sends the statuses collected and then the pending errors, each once and in order, in
-- requests of 1 to 100 entries, and leaves no pending errors.
pub report_lem :
    (entries : Registry) (pending_errors : List StatusEntry) (now : ℕ)
    → (concat (report entries pending_errors now).0
        ≡ (collect_statuses entries now).0 ++ pending_errors)
      × (All IsSized (report entries pending_errors now).0
          × ((report entries pending_errors now).1.1 ≡ []))
unfolding report
report_lem entries pending_errors now =
    let all_entries = (collect_statuses entries now).0 ++ pending_errors in
    (
      concat-requests_of (length all_entries) all_entries (omega arith),
      (requests_of-IsSized (length all_entries) all_entries, refl),
    )
