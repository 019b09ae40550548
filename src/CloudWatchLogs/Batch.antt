-- ===== src/CloudWatchLogs/Batch.antt =====
-- exporter/aws/metrics/cloudwatch-logs-client.ts: log events, batches of them, and the limits of
-- PutLogEvents. A message is the list of its UTF-16 code units, a time is whole milliseconds since
-- the epoch.
use aws_otel_js_instrumentat.Prelude.{
  is_white_space, ℕ, ◌+◌, ◌-◌, Bool, true, not, ◌||◌, Option, none, some, List, [], ◌∷◌, ◌++◌,
  length, take, all, leb, ltb, nat_beq, if◌then◌else◌,
}

pub record LogEvent : Type 0 where
  pub message : List ℕ
  pub timestamp : ℕ

pub record LogEventBatch : Type 0 where
  pub log_events : List LogEvent
  pub byte_total : ℕ
  pub min_timestamp_ms : ℕ
  pub max_timestamp_ms : ℕ
  pub created_timestamp_ms : ℕ

unfoldable pub create_event_batch : ℕ → LogEventBatch
create_event_batch now = record {
  log_events = [];
  byte_total = 0;
  min_timestamp_ms = 0;
  max_timestamp_ms = 0;
  created_timestamp_ms = now;
}

unfoldable pub add_event : LogEventBatch → LogEvent → ℕ → LogEventBatch
add_event b e event_size = record {
  log_events = b.log_events ++ e ∷ [];
  byte_total = b.byte_total + event_size;
  min_timestamp_ms =
      if nat_beq b.min_timestamp_ms 0 || ltb e.timestamp b.min_timestamp_ms
      then e.timestamp
      else b.min_timestamp_ms;
  max_timestamp_ms = if ltb b.max_timestamp_ms e.timestamp then e.timestamp else b.max_timestamp_ms;
  created_timestamp_ms = b.created_timestamp_ms;
}

unfoldable pub clear : LogEventBatch → ℕ → LogEventBatch
unfolding create_event_batch
clear b now = create_event_batch now

abbrev pub cw_max_event_payload_bytes : ℕ
cw_max_event_payload_bytes = 262144

abbrev pub cw_max_request_event_count : ℕ
cw_max_request_event_count = 10000

abbrev pub cw_per_event_header_bytes : ℕ
cw_per_event_header_bytes = 26

abbrev pub batch_flush_interval : ℕ
batch_flush_interval = 60000

abbrev pub cw_max_request_payload_bytes : ℕ
cw_max_request_payload_bytes = 1048576

abbrev pub cw_event_timestamp_limit_past : ℕ
cw_event_timestamp_limit_past = 1209600000

abbrev pub cw_event_timestamp_limit_future : ℕ
cw_event_timestamp_limit_future = 7200000

abbrev pub day_ms : ℕ
day_ms = 86400000

-- "[Truncated...]"
abbrev pub cw_truncated_suffix : List ℕ
cw_truncated_suffix = 91 ∷ 84 ∷ 114 ∷ 117 ∷ 110 ∷ 99 ∷ 97 ∷ 116 ∷ 101 ∷ 100 ∷ 46 ∷ 46 ∷ 46 ∷ 93 ∷ []

abbrev pub event_size : LogEvent → ℕ
event_size e = length e.message + cw_per_event_header_bytes

-- The truncation in `validateLogEvent`, which writes to the event.
unfoldable pub truncated : LogEvent → LogEvent
truncated e =
    if ltb cw_max_event_payload_bytes (event_size e)
    then record e {
      message =
          take (cw_max_event_payload_bytes - cw_per_event_header_bytes - length cw_truncated_suffix)
            e.message
          ++ cw_truncated_suffix;
    }
    else e

unfoldable pub has_valid_time : ℕ → LogEvent → Bool
has_valid_time now e = not (
    ltb (e.timestamp + cw_event_timestamp_limit_past) now
    || ltb (now + cw_event_timestamp_limit_future) e.timestamp)

-- `none` when the event is refused, otherwise the event as the call leaves it.
unfoldable pub validate_log_event : ℕ → LogEvent → Option LogEvent
validate_log_event now e =
    if all is_white_space e.message
    then none
    else if has_valid_time now e
    then some (truncated e)
    else none

unfoldable pub event_batch_exceeds_limit : LogEventBatch → ℕ → Bool
event_batch_exceeds_limit b next_event_size =
    leb cw_max_request_event_count (length b.log_events)
    || ltb cw_max_request_payload_bytes (b.byte_total + next_event_size)

unfoldable pub is_batch_active : LogEventBatch → ℕ → ℕ → Bool
is_batch_active b target now =
    if nat_beq b.min_timestamp_ms 0 || nat_beq b.max_timestamp_ms 0
    then true
    else not (
        ltb (b.min_timestamp_ms + day_ms) target
        || ltb (target + day_ms) b.max_timestamp_ms
        || leb (b.created_timestamp_ms + batch_flush_interval) now)

-- `sort((a, b) => a.timestamp - b.timestamp)`, which is stable.
unfoldable pub insert_event : LogEvent → List LogEvent → List LogEvent
insert_event e [] = e ∷ []
insert_event e (f ∷ es) = if leb e.timestamp f.timestamp then e ∷ f ∷ es else f ∷ insert_event e es

unfoldable pub sort_events : List LogEvent → List LogEvent
unfolding insert_event
sort_events [] = []
sort_events (e ∷ es) = insert_event e (sort_events es)

unfoldable pub sort_log_events : LogEventBatch → LogEventBatch
sort_log_events b = record b { log_events = sort_events b.log_events }
