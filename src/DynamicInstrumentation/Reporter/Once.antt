-- ===== src/DynamicInstrumentation/Reporter/Once.antt =====
-- Which statuses of one configuration dynamic-instrumentation/status-reporter.ts repeats.
use aws_otel_js_instrumentat.Prelude.{
  ℕ, ◌+◌, ◌≤◌, Bool, true, Option, none, some, List, [], ◌∷◌, if◌then◌else◌, ◌≡◌, arith,
}
use aws_otel_js_instrumentat.DynamicInstrumentation.State.{
  InstrumentationState, ConfigurationStatus, ready, disabled, record_hit, check_expiry, get_status,
  reset_period_flag,
}
use aws_otel_js_instrumentat.DynamicInstrumentation.Reporter.{mark_reported, report_state}

pub data Event : Type 0 where
  hit : ℕ → Event
  installation : Event
  reporting : ℕ → Event

unfoldable pub step : InstrumentationState → Event → InstrumentationState
step s (hit now) = (record_hit s now).1
step s installation = record s { installed = true }
step s (reporting now) = (report_state s now).1

abbrev pub is_status : ConfigurationStatus → Option ConfigurationStatus → ℕ
is_status status none = 0
is_status ready (some ready) = 1
is_status disabled (some disabled) = 1
is_status _ _ = 0

-- The reports of the history that say READY, or DISABLED.
unfoldable pub reports_of : ConfigurationStatus → InstrumentationState → List Event → ℕ
reports_of status s [] = 0
reports_of status s (hit now ∷ later) = reports_of status (step s (hit now)) later
reports_of status s (installation ∷ later) = reports_of status (step s installation) later
reports_of status s (reporting now ∷ later) =
    is_status status (report_state s now).0 + reports_of status (step s (reporting now)) later

-- A status that can still be reported.
abbrev left : Bool → ℕ
left reported = if reported then 0 else 1

report-left :
    (s : InstrumentationState) (now : ℕ)
    → (is_status ready (report_state s now).0 + left (report_state s now).1.ready_reported
        ≤ left s.ready_reported)
      × (is_status disabled (report_state s now).0 + left (report_state s now).1.disabled_reported
          ≤ left s.disabled_reported)
unfolding report_state mark_reported check_expiry get_status reset_period_flag
report-left s now = ground arith

hit-left :
    (s : InstrumentationState) (now : ℕ)
    → ((record_hit s now).1.ready_reported ≡ s.ready_reported)
      × ((record_hit s now).1.disabled_reported ≡ s.disabled_reported)
unfolding record_hit
hit-left s now = ground arith

reports_of-left :
    (s : InstrumentationState) (events : List Event)
    → (reports_of ready s events ≤ left s.ready_reported)
      × (reports_of disabled s events ≤ left s.disabled_reported)
unfolding reports_of step
reports_of-left s [] = (omega arith, omega arith)
reports_of-left s (hit now ∷ later) =
    ground (arith, hit-left s now, reports_of-left (record_hit s now).1 later)
reports_of-left s (installation ∷ later) = reports_of-left (record s { installed = true }) later
reports_of-left s (reporting now ∷ later) = (
  omega (arith, (report-left s now).0, (reports_of-left (report_state s now).1 later).0),
  omega (arith, (report-left s now).1, (reports_of-left (report_state s now).1 later).1),
)

-- Over any history of hits, installation and reports, a configuration is reported READY at most once
-- and DISABLED at most once.
pub reported_once :
    (s : InstrumentationState) (events : List Event)
    → (reports_of ready s events ≤ 1) × (reports_of disabled s events ≤ 1)
reported_once s events = ground (arith, reports_of-left s events)
