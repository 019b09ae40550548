-- ===== src/Incidents/Tests.antt =====
-- Runs of serviceevents/collectors/incident-snapshot-collector.ts on small inputs.
use aws_otel_js_instrumentat.Prelude.{
  ℕ, ◌≤◌, Bool, true, false, Option, none, some, List, [], ◌∷◌, String, ◌==◌, string_test, arith,
}
use aws_otel_js_instrumentat.Incidents.Snapshot.{Surroundings, Occurrence}
use aws_otel_js_instrumentat.Incidents.Pending.{Collector, create}
use aws_otel_js_instrumentat.Incidents.Collector.{Environment}
use aws_otel_js_instrumentat.Incidents.Collector.Emissions.{
  Event, request, collection, count_in, count_of, emissions, emissions_in_window, emissions_of_hash,
}
use aws_otel_js_instrumentat.Incidents.Collector.Cycle.{requests, IsDistinct, one_per_cycle}

-- Globs that match themselves alone, and texts that stand for their hashes.
abbrev env : Environment
env = record {
  latency_threshold_patterns = ("GET /slow", 2000) ∷ [];
  duration_threshold_ms = 1000;
  minimatch = λ key pattern_text. key == pattern_text;
  to_upper_case = λ s. s;
  md5 = λ s. s;
  origin_from_stack = λ stack message. "app.handler";
}

abbrev at : ℕ → Bool → Surroundings
at now throws = record {
  now = now;
  uuid = "3f2a";
  instance_id = "i-0";
  investigation = none;
  get_function_info = λ name. none;
  collecting_throws = throws;
}

abbrev finished : String → ℕ → ℕ → Option String → Occurrence
finished route status duration trace_id = record {
  route = route;
  method = "GET";
  status_code = status;
  duration_ms = duration;
  exception = none;
  trace_id = trace_id;
  span_id = none;
}

-- Two faults of one operation, the second one sampled, a slow request whose collection throws, and
-- a collection in between.
abbrev history : List Event
history =
    request (at 1000 false) (finished "/pay" 500 20 none)
    ∷ request (at 1500 false) (finished "/pay" 502 30 (some "4bf9"))
    ∷ collection true
    ∷ request (at 2000 true) (finished "/slow" 200 2500 none)
    ∷ request (at 2500 false) (finished "/slow" 200 2500 none)
    ∷ []

emissions_in_window_example : count_in 1000 (emissions env (create 1 1) history) ≤ 1
emissions_in_window_example =
    emissions_in_window env 1 1 1000 history
      (omega arith, (omega arith, (omega arith, (omega arith, tt))))

emissions_of_hash_example : count_of "op:GET /pay" 1000 (emissions env (create 5 1) history) ≤ 1
emissions_of_hash_example =
    emissions_of_hash env 5 1 1000 "op:GET /pay" history
      (omega arith, (omega arith, (omega arith, (omega arith, tt))))

abbrev collector : Collector
collector = record {
  limiter = record {
    max_per_period = 5;
    max_same_error = 2;
    snapshot_timestamps = [];
    error_hashes = [];
    current_batch_hashes = [];
  };
  pending_snapshots = [];
  pending_by_hash = [];
  pending_exemplar_by_hash = [];
  exemplars = [];
  next_object = 0;
}

abbrev two_faults : List (Surroundings × Occurrence)
two_faults =
    (at 1000 false, finished "/pay" 500 20 none)
    ∷ (at 1500 false, finished "/pay" 502 30 (some "4bf9"))
    ∷ []

one_per_cycle_example : IsDistinct (emissions env collector (requests two_faults))
one_per_cycle_example = one_per_cycle env collector two_faults (tt, tt)
