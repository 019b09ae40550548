-- ===== src/Incidents/Snapshot/Triggers.antt =====
-- What a trigger of serviceevents/collectors/incident-snapshot-collector.ts says of the severity,
-- and where the snapshots' objects stand.
use aws_otel_js_instrumentat.Prelude.{
  ℕ, Bool, ◌&&◌, Option, none, some, List, String, leb, if◌then◌else◌, ◌≡◌, arith,
}
use aws_otel_js_instrumentat.Incidents.Snapshot.{
  TriggerType, Severity, Occurrence, determine_trigger_type, determine_severity, by_status,
  by_latency, exception, latency, critical, high, medium, JsError,
}

abbrev pub severity_of : ℕ → TriggerType → Severity
severity_of status_code exception =
    if leb 500 status_code && leb status_code 503 then critical else high
severity_of status_code latency = medium

by_status-severity :
    (minimatch : String → String → Bool) (to_upper_case : String → String)
    (patterns : List (String × ℕ)) (default : ℕ) (o : Occurrence) (e : Option JsError)
    (t : TriggerType)
    → by_status minimatch to_upper_case patterns default o e ≡ some t
    → determine_severity o.status_code t ≡ severity_of o.status_code t
unfolding by_status by_latency determine_severity
by_status-severity minimatch to_upper_case patterns default o e exception h = ground arith
by_status-severity minimatch to_upper_case patterns default o (some e) latency h = ground arith
by_status-severity minimatch to_upper_case patterns default o none latency h = ground arith

-- A request that triggers a snapshot gets a severity that follows from its trigger: an exception is
-- critical for the statuses 500 to 503 and high otherwise, a slow request is always medium.
pub severity_of_trigger :
    (minimatch : String → String → Bool) (to_upper_case : String → String)
    (patterns : List (String × ℕ)) (default : ℕ) (o : Occurrence) (t : TriggerType)
    → determine_trigger_type minimatch to_upper_case patterns default o ≡ some t
    → determine_severity o.status_code t ≡ severity_of o.status_code t
unfolding determine_trigger_type
severity_of_trigger minimatch to_upper_case patterns default o t h =
    by_status-severity minimatch to_upper_case patterns default o o.exception t h
