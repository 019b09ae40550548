-- ===== src/DynamicInstrumentation/Configuration.antt =====
-- dynamic-instrumentation/model/instrumentation-configuration.ts and capture-configuration.ts: the
-- parsed configuration, and the key under which the registry files it. Times are whole milliseconds.
use Prim.Native.Nat.{ℕ}
use Prim.Native.String
use aws_otel_js_instrumentat.Prelude.{decimal, ℕ, Bool, Option, List, String, ltb}
use aws_otel_js_instrumentat.DynamicInstrumentation.State.{InstrumentationType, probe, breakpoint}

pub record CaptureConfiguration : Type 0 where
  pub capture_return : Bool
  pub capture_stack_trace : Bool
  pub capture_arguments : Option (List String)
  pub capture_locals : Option (List String)
  pub arg_mappings : List (String × String)
  pub return_attribute_name : String
  pub max_string_length : ℕ
  pub max_collection_width : ℕ
  pub max_collection_depth : ℕ
  pub max_stack_frames : ℕ
  pub max_stack_trace_size : ℕ
  pub max_object_depth : ℕ
  pub max_fields_per_object : ℕ

pub record InstrumentationConfiguration : Type 0 where
  pub code_unit : String
  pub class_name : String
  pub method_name : String
  pub line_number : ℕ
  pub file_path : String
  pub capture_config : CaptureConfiguration
  pub location_hash : String
  pub instrumentation_type : InstrumentationType
  pub expires_at : Option ℕ
  pub max_hits : ℕ
  pub attribute_filters : List (List (String × String))
  pub arn : String
  pub created_at : Option ℕ
  pub signal_type : String

unfoldable pub compute_registry_key : InstrumentationConfiguration → String
unfolding decimal
compute_registry_key config = String.◌++◌ config.file_path (
    String.◌++◌ ":" (String.◌++◌ config.method_name (String.◌++◌ ":" (decimal config.line_number))))

unfoldable pub is_line_level : InstrumentationConfiguration → Bool
is_line_level config = ltb 0 config.line_number

unfoldable pub is_permanent : InstrumentationConfiguration → Bool
is_permanent config = elim config.instrumentation_type [
  | probe ↦ Bool.true
  | breakpoint ↦ Bool.false
]
