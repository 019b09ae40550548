-- ===== src/DynamicInstrumentation/Reporter.antt =====
-- dynamic-instrumentation/status-reporter.ts: what a report says of each configuration, and how it is
-- cut into requests. The clock is read once for a report. A request that fails is only logged, so
-- that the service's answers have no effect.
mod Tests
pub mod Batches
pub mod Once
use aws_otel_js_instrumentat.Prelude.{
  ℕ, zero, suc, ◌+◌, ◌/◌, Bool, true, false, not, ◌&&◌, Option, none, some, List, [], ◌∷◌, ◌++◌,
  String, length, take, drop, is_empty, if◌then◌else◌,
}
use aws_otel_js_instrumentat.DynamicInstrumentation.State.{
  InstrumentationType, InstrumentationState, ConfigurationStatus, ready, active, disabled, failed,
  check_expiry, get_status, reset_period_flag,
}
use aws_otel_js_instrumentat.DynamicInstrumentation.Registry.{RegistryEntry, Registry}

pub data ErrorCause : Type 0 where
  file_not_found method_not_found line_not_executable overloaded_methods language_mismatch
        runtime_error :
      ErrorCause

pub record StatusEntry : Type 0 where
  pub instrumentation_type : InstrumentationType
  pub signal_type : String
  pub location_hash : String
  pub status : ConfigurationStatus
  pub time : ℕ
  pub error_cause : Option ErrorCause

abbrev pub max_configs_per_status_report : ℕ
max_configs_per_status_report = 100

build_entry : RegistryEntry → ConfigurationStatus → ℕ → StatusEntry
build_entry e status now = record {
  instrumentation_type = e.config.instrumentation_type;
  signal_type = e.config.signal_type;
  location_hash = e.config.location_hash;
  status = status;
  time = now / 1000;
  error_cause = none;
}

-- The state after a report in which the configuration has this status, and whether it is reported.
unfoldable pub mark_reported :
    ConfigurationStatus → InstrumentationState → Bool × InstrumentationState
mark_reported ready s =
    if s.installed && not s.ready_reported
    then (true, record s { ready_reported = true })
    else (false, s)
mark_reported active s = if s.hit_in_last_period then (true, reset_period_flag s) else (false, s)
mark_reported disabled s =
    if not s.disabled_reported then (true, record s { disabled_reported = true }) else (false, s)
mark_reported failed s = (false, s)

unfoldable pub report_state :
    InstrumentationState → ℕ → Option ConfigurationStatus × InstrumentationState
report_state s now =
    let checked = (check_expiry s now).1 in
    let status = get_status checked in
    let (reported, after) = mark_reported status checked in
    ((if reported then some status else none), after)

entry_if : Option ConfigurationStatus → RegistryEntry → ℕ → List StatusEntry
unfolding build_entry
entry_if none e now = []
entry_if (some status) e now = build_entry e status now ∷ []

-- The loop over the registry.
unfoldable pub collect_statuses : Registry → ℕ → List StatusEntry × Registry
unfolding entry_if
collect_statuses [] now = ([], [])
collect_statuses ((key, e) ∷ entries) now =
    let rest = collect_statuses entries now in
    let (status, after) = report_state e.state now in
    (entry_if status e now ++ rest.0, (key, record e { state = after }) ∷ rest.1)

-- `for (let i = 0; i < entries.length; i += MAX_CONFIGS_PER_STATUS_REPORT)`, on fuel.
unfoldable pub requests_of : ℕ → List StatusEntry → List (List StatusEntry)
requests_of zero entries = []
requests_of (suc fuel) entries =
    let rest = requests_of fuel (drop max_configs_per_status_report entries) in
    if is_empty entries then [] else take max_configs_per_status_report entries ∷ rest

-- The requests sent, and the registry and the pending errors after them.
unfoldable pub report :
    Registry → List StatusEntry → ℕ → List (List StatusEntry) × (Registry × List StatusEntry)
report entries pending_errors now =
    let (statuses, after) = collect_statuses entries now in
    let all_entries = statuses ++ pending_errors in
    (requests_of (length all_entries) all_entries, (after, []))

unfoldable pub report_error :
    InstrumentationType
    → String
    → ErrorCause
    → Registry
    → List StatusEntry
    → ℕ
    → List (List StatusEntry) × (Registry × List StatusEntry)
report_error instrumentation_type location_hash error_cause entries pending_errors now =
    report entries
      (pending_errors
        ++ record {
          instrumentation_type = instrumentation_type;
          signal_type = "SNAPSHOT";
          location_hash = location_hash;
          status = failed;
          time = now / 1000;
          error_cause = some error_cause;
        }
          ∷ [])
      now
