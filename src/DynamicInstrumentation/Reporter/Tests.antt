-- ===== src/DynamicInstrumentation/Reporter/Tests.antt =====
-- Runs of dynamic-instrumentation/status-reporter.ts on small inputs.
use aws_otel_js_instrumentat.Prelude.{
  ◌≤◌, none, some, List, [], ◌∷◌, ◌++◌, true, false, concat, All, ◌≡◌,
}
use aws_otel_js_instrumentat.DynamicInstrumentation.State.{
  InstrumentationState, breakpoint, probe, failed, ready, disabled,
}
use aws_otel_js_instrumentat.DynamicInstrumentation.Registry.{Registry}
use aws_otel_js_instrumentat.DynamicInstrumentation.Reporter.{
  StatusEntry, file_not_found, collect_statuses, report,
}
use aws_otel_js_instrumentat.DynamicInstrumentation.Reporter.Batches.{IsSized, report_lem}
use aws_otel_js_instrumentat.DynamicInstrumentation.Reporter.Once.{
  Event, hit, installation, reporting, reports_of, reported_once,
}

abbrev new : InstrumentationState
new = record {
  location_hash = "hash";
  max_hits = 1;
  expires_at = none;
  instrumentation_type = breakpoint;
  rate_limiter = record { max_captures_per_second = 5; window_start = 0; count = 0 };
  hit_count = 0;
  is_disabled = false;
  disable_reason = none;
  hit_in_last_period = false;
  installed = false;
  ready_reported = false;
  disabled_reported = false;
  error_reported = false;
}

abbrev history : List Event
history =
    reporting 0
    ∷ installation
    ∷ reporting 1
    ∷ reporting 2
    ∷ hit 3
    ∷ reporting 4
    ∷ hit 5
    ∷ reporting 6
    ∷ reporting 7
    ∷ []

reported_once_example : (reports_of ready new history ≤ 1) × (reports_of disabled new history ≤ 1)
reported_once_example = reported_once new history

abbrev entries : Registry
entries =
    (
      "src/app.js:handler:7",
      record {
        config = record {
          code_unit = "";
          class_name = "";
          method_name = "handler";
          line_number = 7;
          file_path = "src/app.js";
          capture_config = record {
            capture_return = true;
            capture_stack_trace = false;
            capture_arguments = none;
            capture_locals = none;
            arg_mappings = [];
            return_attribute_name = "";
            max_string_length = 255;
            max_collection_width = 20;
            max_collection_depth = 3;
            max_stack_frames = 20;
            max_stack_trace_size = 8192;
            max_object_depth = 3;
            max_fields_per_object = 20;
          };
          location_hash = "hash";
          instrumentation_type = breakpoint;
          expires_at = none;
          max_hits = 1;
          attribute_filters = [];
          arn = "";
          created_at = none;
          signal_type = "SNAPSHOT";
        };
        state = record new { installed = true };
      },
    )
    ∷ []

abbrev pending : List StatusEntry
pending =
    record {
      instrumentation_type = probe;
      signal_type = "SNAPSHOT";
      location_hash = "other";
      status = failed;
      time = 3;
      error_cause = some file_not_found;
    }
    ∷ []

report_lem_example :
    (concat (report entries pending 5000).0 ≡ (collect_statuses entries 5000).0 ++ pending)
    × (All IsSized (report entries pending 5000).0 × ((report entries pending 5000).1.1 ≡ []))
report_lem_example = report_lem entries pending 5000
