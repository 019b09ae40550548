-- ===== src/CloudWatchLogs/Client.antt =====
-- exporter/aws/metrics/cloudwatch-logs-client.ts: sending batches. Calls are awaited one after
-- another, and each reads the clock once. The service's answers to the client's requests are a list
-- that the environment chooses; a request past its end succeeds.
use aws_otel_js_instrumentat.Prelude.{
  ℕ, Bool, true, false, not, ◌||◌, Option, none, some, List, [], ◌∷◌, ◌++◌, is_empty, if◌then◌else◌,
}
use aws_otel_js_instrumentat.CloudWatchLogs.Batch.{
  LogEvent, LogEventBatch, create_event_batch, add_event, event_size, validate_log_event,
  event_batch_exceeds_limit, is_batch_active, sort_events, sort_log_events,
}

pub data Answer : Type 0 where
  success resource_not_found resource_already_exists failure : Answer

-- The answers to come, and the PutLogEvents requests that were accepted.
pub record Service : Type 0 where
  pub answers : List Answer
  pub accepted : List (List LogEvent)

next_answer : List Answer → Answer
next_answer [] = success
next_answer (a ∷ _) = a

later_answers : List Answer → List Answer
later_answers [] = []
later_answers (_ ∷ later) = later

answered : Service → Service
answered s = record s { answers = later_answers s.answers }

put_if : Answer → List LogEvent → Service → Service
put_if success events s = record s { accepted = s.accepted ++ events ∷ [] }
put_if _ events s = s

pub put_log_events : Service → List LogEvent → Answer × Service
put_log_events s events =
    (next_answer s.answers, put_if (next_answer s.answers) events (answered s))

-- `ensureLogGroupExists` and `ensureLogStreamExists`: false when they throw.
is_created : Answer → Bool
is_created success = true
is_created resource_already_exists = true
is_created _ = false

pub ensure_log_group_exists : Service → Bool × Service
ensure_log_group_exists s = (is_created (next_answer s.answers), answered s)

pub ensure_log_stream_exists : Service → Bool × Service
ensure_log_stream_exists s = (is_created (next_answer s.answers), answered s)

is_success : Answer → Bool
is_success success = true
is_success _ = false

retry_put : Service → List LogEvent → Bool × Service
retry_put s events = let (a, s') = put_log_events s events in (is_success a, s')

with_stream : Bool × Service → List LogEvent → Bool × Service
with_stream (false, s) events = (false, s)
with_stream (true, s) events = retry_put s events

with_group : Bool × Service → List LogEvent → Bool × Service
with_group (false, s) events = (false, s)
with_group (true, s) events = with_stream (ensure_log_stream_exists s) events

after_put : Answer × Service → List LogEvent → Bool × Service
after_put (success, s) events = (true, s)
after_put (resource_not_found, s) events = with_group (ensure_log_group_exists s) events
after_put (_, s) events = (false, s)

-- True when the call returns, false when it throws.
unfoldable pub send_log_batch : Service → LogEventBatch → Bool × Service
unfolding after_put with_group with_stream retry_put put_log_events put_if next_answer answered
    later_answers is_success is_created ensure_log_group_exists ensure_log_stream_exists
send_log_batch s b =
    if is_empty b.log_events
    then (true, s)
    else after_put (put_log_events s (sort_events b.log_events)) (sort_events b.log_events)

pub record Client : Type 0 where
  pub event_batch : Option LogEventBatch
  pub service : Service

unfoldable pub current_batch : Option LogEventBatch → ℕ → LogEventBatch
current_batch none now = create_event_batch now
current_batch (some b) now = b

-- The full batch was sent, or the send threw: then the event is not added, and the batch stays,
-- sorted by the attempt.
unfoldable pub after_send : Bool × Service → LogEventBatch → LogEvent → ℕ → Bool × Client
after_send (true, s) b e now = (
  true,
  record { event_batch = some (add_event (create_event_batch now) e (event_size e)); service = s },
)
after_send (false, s) b e now =
    (false, record { event_batch = some (sort_log_events b); service = s })

unfoldable pub enqueue : Service → LogEventBatch → LogEvent → ℕ → Bool × Client
enqueue s b e now =
    if event_batch_exceeds_limit b (event_size e) || not (is_batch_active b e.timestamp now)
    then after_send (send_log_batch s b) b e now
    else (true, record { event_batch = some (add_event b e (event_size e)); service = s })

unfoldable pub send_valid : Client → Option LogEvent → ℕ → Bool × Client
send_valid c none now = (true, c)
send_valid c (some e) now = enqueue c.service (current_batch c.event_batch now) e now

unfoldable pub send_log_event : Client → ℕ → LogEvent → Bool × Client
send_log_event c now e = send_valid c (validate_log_event now e) now

unfoldable pub flush_batch : Client → Option LogEventBatch → ℕ → Bool × Client
flush_batch c none now = (true, c)
flush_batch c (some b) now =
    if is_empty b.log_events
    then (true, c)
    else (let (sent, s) = send_log_batch c.service b in
        (sent, record { event_batch = some (create_event_batch now); service = s }))

unfoldable pub flush_pending_events : Client → ℕ → Bool × Client
flush_pending_events c now = flush_batch c c.event_batch now
