-- ===== src/DynamicInstrumentation/Tests.antt =====
-- Runs of the limiter, the counters and the registry of dynamic-instrumentation/ on small inputs.
use aws_otel_js_instrumentat.Prelude.{
  ℕ, ◌≤◌, true, false, none, some, List, [], ◌∷◌, ◌≡◌, refl, string_test,
}
use aws_otel_js_instrumentat.DynamicInstrumentation.State.{
  InstrumentationState, new_state, get_status, disabled, breakpoint, probe, max_hits_reached,
}
use aws_otel_js_instrumentat.DynamicInstrumentation.State.Hits.{
  Event, hit, expiry_check, period_reset, run, captures, IsCoherent, new_state-IsCoherent,
  run-IsCoherent, captures_bounded, disabled_for_good,
}
use aws_otel_js_instrumentat.DynamicInstrumentation.Configuration.{InstrumentationConfiguration}
use aws_otel_js_instrumentat.DynamicInstrumentation.Registry.{Registry}

abbrev times : List ℕ
times = 1000 ∷ 1200 ∷ 1300 ∷ 1900 ∷ 2000 ∷ []

abbrev history : List Event
history = hit 0 ∷ hit 10 ∷ expiry_check 20 ∷ hit 30 ∷ period_reset ∷ hit 2000 ∷ []

run-IsCoherent_example : IsCoherent (run (new_state "hash" 2 (some 1000) breakpoint 5) history)
run-IsCoherent_example =
    run-IsCoherent (new_state "hash" 2 (some 1000) breakpoint 5) history
      (new_state-IsCoherent "hash" 2 (some 1000) breakpoint 5)

captures_bounded_example :
    (captures (new_state "hash" 2 (some 1000) breakpoint 5) history ≤ 2)
    × ((run (new_state "hash" 2 (some 1000) breakpoint 5) history).hit_count
        ≡ captures (new_state "hash" 2 (some 1000) breakpoint 5) history)
captures_bounded_example = captures_bounded "hash" 2 (some 1000) breakpoint 5 history

abbrev spent_state : InstrumentationState
spent_state = record {
  location_hash = "hash";
  max_hits = 1;
  expires_at = some 1000;
  instrumentation_type = breakpoint;
  rate_limiter = record { max_captures_per_second = 5; window_start = 0; count = 1 };
  hit_count = 1;
  is_disabled = true;
  disable_reason = some max_hits_reached;
  hit_in_last_period = true;
  installed = true;
  ready_reported = true;
  disabled_reported = false;
  error_reported = false;
}

disabled_for_good_example :
    (captures spent_state history ≡ 0)
    × (get_status (run spent_state history) ≡ disabled)
    × ((run spent_state history).disable_reason ≡ some max_hits_reached)
disabled_for_good_example = disabled_for_good spent_state history refl

abbrev configuration : ℕ → ℕ → InstrumentationConfiguration
configuration line created = record {
  code_unit = "";
  class_name = "";
  method_name = "handler";
  line_number = line;
  file_path = "src/app.js";
  capture_config = record {
    capture_return = true;
    capture_stack_trace = false;
    capture_arguments = none;
    capture_locals = none;
    arg_mappings = [];
    return_attribute_name = "";
    max_string_length = 255;
    max_collection_width = 20;
    max_collection_depth = 3;
    max_stack_frames = 20;
    max_stack_trace_size = 8192;
    max_object_depth = 3;
    max_fields_per_object = 20;
  };
  location_hash = "hash";
  instrumentation_type = probe;
  expires_at = none;
  max_hits = 100;
  attribute_filters = [];
  arn = "";
  created_at = some created;
  signal_type = "SNAPSHOT";
}

abbrev held : Registry
held = ("src/app.js:handler:0", record { config = configuration 0 1; state = spent_state }) ∷ []
