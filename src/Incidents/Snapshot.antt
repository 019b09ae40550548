-- ===== src/Incidents/Snapshot.antt =====
-- serviceevents/collectors/incident-snapshot-collector.ts: what triggers a snapshot, and what it
-- holds. Durations are whole milliseconds; messages and stacks are lists of UTF-16 code units.
-- Resource attributes, versions and process ids, which the collector copies, are left out.
pub mod Triggers
use Prim.Native.String
use aws_otel_js_instrumentat.Prelude.{
  ℕ, ◌+◌, Bool, true, false, ◌&&◌, ◌||◌, Option, none, some, List, [], ◌∷◌, ◌++◌, String, length,
  take, map, any, is_empty, leb, ltb, nat_beq, if◌then◌else◌, decimal_codes,
}

abbrev pub Text : Type 0
Text = List ℕ

pub data TriggerType : Type 0 where
  exception latency : TriggerType

pub data Severity : Type 0 where
  critical high medium low : Severity

pub record JsError : Type 0 where
  pub constructor_name : String
  pub message : Text
  pub stack : Option Text
  pub text : Text

pub record CallFrame : Type 0 where
  pub function_name : String
  pub caller_function_name : Option String
  pub duration_ns : ℕ

pub record ExceptionData : Type 0 where
  pub name : String
  pub message : Text
  pub traceback : Text
  pub name_and_message : Text

pub record InvestigationData : Type 0 where
  pub call_path : List CallFrame
  pub thrown : Option ExceptionData

pub record FunctionInfo : Type 0 where
  pub is_async : Bool
  pub line : Option ℕ

pub record CallPathEntry : Type 0 where
  pub function_name : String
  pub caller_function_name : String
  pub duration_ns : ℕ
  pub error : Bool
  pub is_async : Bool
  pub function_at_line : Option ℕ

pub record ExceptionInfo : Type 0 where
  pub exception_type : String
  pub exception_message : Text
  pub stack_trace : Text
  pub call_path : List CallPathEntry

pub record IncidentSnapshot : Type 0 where
  pub object : ℕ
  pub snapshot_id : String
  pub timestamp : ℕ
  pub severity : Severity
  pub trigger_type : TriggerType
  pub instance_id : String
  pub affected_endpoint : String
  pub duration_ms : ℕ
  pub is_partial : Bool
  pub exception_info : List ExceptionInfo
  pub status_code : ℕ
  pub trace_id : Option String
  pub span_id : Option String

-- One finished request.
pub record Occurrence : Type 0 where
  pub route : String
  pub method : String
  pub status_code : ℕ
  pub duration_ms : ℕ
  pub exception : Option JsError
  pub trace_id : Option String
  pub span_id : Option String

-- What a call reads from its surroundings: the clock, a fresh UUID, the host, the request's
-- investigation data, the registry of functions, and whether collecting throws.
pub record Surroundings : Type 0 where
  pub now : ℕ
  pub uuid : String
  pub instance_id : String
  pub investigation : Option InvestigationData
  pub get_function_info : String → Option FunctionInfo
  pub collecting_throws : Bool

abbrev max_exception_message_chars : ℕ
max_exception_message_chars = 2048

abbrev max_stack_trace_chars : ℕ
max_stack_trace_chars = 8192

-- "...[truncated, " and " chars total]"
abbrev pub truncated_prefix : Text
truncated_prefix =
    46 ∷ 46 ∷ 46 ∷ 91 ∷ 116 ∷ 114 ∷ 117 ∷ 110 ∷ 99 ∷ 97 ∷ 116 ∷ 101 ∷ 100 ∷ 44 ∷ 32 ∷ []

abbrev pub truncated_suffix : Text
truncated_suffix = 32 ∷ 99 ∷ 104 ∷ 97 ∷ 114 ∷ 115 ∷ 32 ∷ 116 ∷ 111 ∷ 116 ∷ 97 ∷ 108 ∷ 93 ∷ []

unfoldable pub truncate_string : Text → ℕ → Text
truncate_string text max_length =
    if ltb max_length (length text)
    then take max_length text
      ++ (truncated_prefix ++ (decimal_codes (length text) ++ truncated_suffix))
    else text

abbrev pub operation : Occurrence → String
operation o = String.◌++◌ o.method (String.◌++◌ " " o.route)

-- Glob matching and `toUpperCase` are the runtime's and the minimatch package's.
module _ (minimatch : String → String → Bool) (to_upper_case : String → String) where
  first_match : List (String × ℕ) → String → ℕ → ℕ
  first_match [] key default = default
  first_match ((pattern_text, threshold_ms) ∷ patterns) key default =
      if minimatch key pattern_text then threshold_ms else first_match patterns key default

  unfoldable pub resolve_latency_threshold_ms : List (String × ℕ) → ℕ → String → String → ℕ
  unfolding first_match
  resolve_latency_threshold_ms patterns duration_threshold_ms method route =
      first_match patterns (String.◌++◌ (to_upper_case method) (String.◌++◌ " " route))
        duration_threshold_ms

  by_latency : ℕ → ℕ → Option TriggerType
  by_latency duration_ms threshold_ms = if ltb threshold_ms duration_ms then some latency else none

  by_status : List (String × ℕ) → ℕ → Occurrence → Option JsError → Option TriggerType
  by_status patterns default o (some e) = some exception
  by_status patterns default o none =
      if leb 500 o.status_code
      then some exception
      else by_latency o.duration_ms (resolve_latency_threshold_ms patterns default o.method o.route)

  unfoldable pub determine_trigger_type : List (String × ℕ) → ℕ → Occurrence → Option TriggerType
  unfolding by_status by_latency
  determine_trigger_type patterns default o = by_status patterns default o o.exception

abbrev is_exception : TriggerType → Bool
is_exception exception = true
is_exception latency = false

unfoldable pub determine_severity : ℕ → TriggerType → Severity
determine_severity status_code trigger =
    if leb 500 status_code && leb status_code 503
    then critical
    else if leb 504 status_code || is_exception trigger
    then high
    else medium

frames_of : Option InvestigationData → List CallFrame
frames_of none = []
frames_of (some d) = d.call_path

unfoldable pub detect_is_partial : Option InvestigationData → Bool
unfolding frames_of
detect_is_partial d = any (λ f. nat_beq f.duration_ns 0) (frames_of d)

text_or_empty : Option String → String
text_or_empty none = ""
text_or_empty (some s) = s

info_async : Option FunctionInfo → Bool
info_async none = false
info_async (some i) = i.is_async

info_line : Option FunctionInfo → Option ℕ
info_line none = none
info_line (some i) = i.line

call_path_entry : (String → Option FunctionInfo) → CallFrame → CallPathEntry
call_path_entry info f = record {
  function_name = f.function_name;
  caller_function_name = text_or_empty f.caller_function_name;
  duration_ns = f.duration_ns;
  error = false;
  is_async = info_async (info f.function_name);
  function_at_line = info_line (info f.function_name);
}

unfoldable pub build_call_path :
    (String → Option FunctionInfo) → Option InvestigationData → List CallPathEntry
unfolding call_path_entry frames_of text_or_empty info_async info_line
build_call_path info d = map (call_path_entry info) (frames_of d)

text_or : Option Text → Text → Text
text_or none d = d
text_or (some t) d = t

nonempty_or : Text → Text → Text
nonempty_or [] d = d
nonempty_or (c ∷ t) d = c ∷ t

thrown_of : Option InvestigationData → Option ExceptionData
thrown_of none = none
thrown_of (some d) = d.thrown

latency_info : List CallPathEntry → List ExceptionInfo
latency_info [] = []
latency_info (f ∷ path) =
    record { exception_type = ""; exception_message = []; stack_trace = []; call_path = f ∷ path }
    ∷ []

captured_info : Option ExceptionData → List CallPathEntry → List ExceptionInfo
captured_info none path = latency_info path
captured_info (some x) path =
    record {
      exception_type = x.name;
      exception_message = truncate_string x.message max_exception_message_chars;
      stack_trace =
          truncate_string (nonempty_or x.traceback x.name_and_message) max_stack_trace_chars;
      call_path = path;
    }
    ∷ []

unfoldable pub collect_exception_info :
    (String → Option FunctionInfo) → Option JsError → Option InvestigationData → List ExceptionInfo
unfolding captured_info latency_info thrown_of nonempty_or text_or
collect_exception_info info none d = captured_info (thrown_of d) (build_call_path info d)
collect_exception_info info (some e) d =
    record {
      exception_type = e.constructor_name;
      exception_message = truncate_string e.message max_exception_message_chars;
      stack_trace = truncate_string (text_or e.stack e.text) max_stack_trace_chars;
      call_path = build_call_path info d;
    }
    ∷ []

snapshot_of : ℕ → Surroundings → Occurrence → TriggerType → IncidentSnapshot
snapshot_of object s o trigger = record {
  object = object;
  snapshot_id = String.◌++◌ "snap_" s.uuid;
  timestamp = s.now;
  severity = determine_severity o.status_code trigger;
  trigger_type = trigger;
  instance_id = s.instance_id;
  affected_endpoint = operation o;
  duration_ms = o.duration_ms;
  is_partial = detect_is_partial s.investigation;
  exception_info = collect_exception_info s.get_function_info o.exception s.investigation;
  status_code = o.status_code;
  trace_id = o.trace_id;
  span_id = o.span_id;
}

-- The snapshot object allocated at `object`; `none` when collecting throws.
unfoldable pub collect_incident_snapshot :
    ℕ → Surroundings → Occurrence → TriggerType → Option IncidentSnapshot
unfolding snapshot_of
collect_incident_snapshot object s o trigger =
    if s.collecting_throws then none else some (snapshot_of object s o trigger)
