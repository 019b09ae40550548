-- ===== src/CloudWatchLogs/Tests.antt =====
-- Runs of the client of exporter/aws/metrics/cloudwatch-logs-client.ts on small inputs.
use mathlib.Core.List.{Perm}
use aws_otel_js_instrumentat.Prelude.{is_white_space, ℕ, none, List, [], ◌∷◌, ◌++◌, refl}
use aws_otel_js_instrumentat.CloudWatchLogs.Batch.{
  LogEvent, LogEventBatch, validate_log_event, sort_events, has_valid_time, truncated,
  event_batch_exceeds_limit, create_event_batch, is_batch_active, add_event, insert_event,
  sort_log_events,
}
use aws_otel_js_instrumentat.CloudWatchLogs.Client.{
  Client, Service, resource_not_found, resource_already_exists, success, send_log_batch,
  send_log_event, send_valid, enqueue, current_batch, after_send, flush_pending_events, flush_batch,
}
use aws_otel_js_instrumentat.CloudWatchLogs.Delivery.{Call, sends, flushes, run, step}
use aws_otel_js_instrumentat.CloudWatchLogs.Conservation.{
  contents, all_offered, AllReturn, run_perm,
}

abbrev event : ℕ → LogEvent
event at = record { message = 104 ∷ 105 ∷ []; timestamp = at }

-- The first put finds no log group; the group exists by the time it is created.
abbrev service : Service
service = record {
  answers = resource_not_found ∷ resource_already_exists ∷ success ∷ success ∷ [];
  accepted = [];
}

abbrev client : Client
client = record { event_batch = none; service = service }

-- Two days after the oldest accepted time; the second event is a day and more later.
abbrev calls : List Call
calls =
    sends 1500000000 (event 1400000000)
    ∷ sends 1500000001 (event 1400000001)
    ∷ sends 1500000002 (event 1500000000)
    ∷ flushes 1500000003
    ∷ []

abbrev batch : LogEventBatch
batch = record {
  log_events = event 5 ∷ event 3 ∷ [];
  byte_total = 56;
  min_timestamp_ms = 3;
  max_timestamp_ms = 5;
  created_timestamp_ms = 0;
}

calls-AllReturn : AllReturn client calls
unfolding step send_log_event send_valid validate_log_event is_white_space has_valid_time truncated
    enqueue event_batch_exceeds_limit current_batch create_event_batch is_batch_active add_event
    after_send send_log_batch flush_pending_events flush_batch insert_event sort_events
    sort_log_events
calls-AllReturn = (refl, (refl, (refl, (refl, tt))))

run_perm_example : Perm (contents (run client calls)) (contents client ++ all_offered calls)
run_perm_example = run_perm client calls calls-AllReturn
