-- ===== src/CloudWatchLogs/Limits.antt =====
-- Every request that the client of exporter/aws/metrics/cloudwatch-logs-client.ts gets accepted is
-- within the service's limits.
use aws_otel_js_instrumentat.Prelude.{
  ℕ, ◌+◌, ◌≤◌, ◌<◌, true, false, some, List, [], ◌∷◌, ◌++◌, length, take, is_empty, ltb, ◌≡◌, refl,
  All, All-append, length-append, length-take, arith, Bool-cases, inl, inr,
}
use aws_otel_js_instrumentat.CloudWatchLogs.Batch.{
  LogEvent, LogEventBatch, create_event_batch, add_event, event_size, validate_log_event, truncated,
  has_valid_time, event_batch_exceeds_limit, is_batch_active, sort_events, sort_log_events,
  cw_truncated_suffix,
}
use aws_otel_js_instrumentat.CloudWatchLogs.Sorting.{
  bytes, IsSorted, length-sort_events, bytes-sort_events, All-sort_events, sort_events-IsSorted,
}

-- What PutLogEvents accepts: 1 to 10,000 events, at most 1 MiB, in ascending order of time, within
-- 24 hours, none above 256 KiB.
pub record IsRequest (es : List LogEvent) : Type 0 where
  pub some_event : 1 ≤ length es
  pub few_events : length es ≤ 10000
  pub few_bytes : bytes es ≤ 1048576
  pub sorted : IsSorted es
  pub first : ℕ
  pub last : ℕ
  pub within_a_day : last ≤ first + 86400000
  pub in_range : All (λ e. (first ≤ e.timestamp) × (e.timestamp ≤ last)) es
  pub small : All (λ e. event_size e ≤ 262144) es

pub record IsBatch (b : LogEventBatch) : Type 0 where
  pub few_events : length b.log_events ≤ 10000
  pub counted : b.byte_total ≡ bytes b.log_events
  pub few_bytes : b.byte_total ≤ 1048576
  pub bounded : b.max_timestamp_ms ≤ b.min_timestamp_ms + 86400000
  pub started : 1 ≤ length b.log_events → (0 < b.min_timestamp_ms) × (0 < b.max_timestamp_ms)
  pub unstarted : length b.log_events ≡ 0 → (b.min_timestamp_ms ≡ 0) × (b.max_timestamp_ms ≡ 0)
  pub in_range :
      All
        (λ e. (b.min_timestamp_ms ≤ e.timestamp) × (e.timestamp ≤ b.max_timestamp_ms))
        b.log_events
  pub small : All (λ e. event_size e ≤ 262144) b.log_events

pub create_event_batch-IsBatch : (now : ℕ) → IsBatch (create_event_batch now)
unfolding create_event_batch
create_event_batch-IsBatch now = ground arith

All-widen :
    (lo hi lo' hi' : ℕ) (es : List LogEvent)
    → lo' ≤ lo
    → hi ≤ hi'
    → All (λ e. (lo ≤ e.timestamp) × (e.timestamp ≤ hi)) es
    → All (λ e. (lo' ≤ e.timestamp) × (e.timestamp ≤ hi')) es
All-widen lo hi lo' hi' [] h k a = tt
All-widen lo hi lo' hi' (e ∷ es) h k a =
    ((omega arith, omega arith), All-widen lo hi lo' hi' es h k a.1)

All-widen_if :
    (lo hi lo' hi' : ℕ) (es : List LogEvent)
    → (1 ≤ length es → (lo' ≤ lo) × (hi ≤ hi'))
    → All (λ e. (lo ≤ e.timestamp) × (e.timestamp ≤ hi)) es
    → All (λ e. (lo' ≤ e.timestamp) × (e.timestamp ≤ hi')) es
All-widen_if lo hi lo' hi' [] h a = tt
All-widen_if lo hi lo' hi' (e ∷ es) h a =
    let (below, above) = h (omega arith) in All-widen lo hi lo' hi' (e ∷ es) below above a

bytes-append : (es : List LogEvent) (e : LogEvent) → bytes (es ++ e ∷ []) ≡ bytes es + event_size e
bytes-append [] e = omega arith
bytes-append (f ∷ es) e = omega (arith, bytes-append es e)

module _ (b : LogEventBatch) (e : LogEvent) (now : ℕ) (v : IsBatch b)
    (sized : event_size e ≤ 262144) (dated : 0 < e.timestamp)
    (room : event_batch_exceeds_limit b (event_size e) ≡ false)
    (open_for : is_batch_active b e.timestamp now ≡ true) where
  add_event-bounds :
      let b' = add_event b e (event_size e) in
      (b'.max_timestamp_ms ≤ b'.min_timestamp_ms + 86400000)
      × (0 < b'.min_timestamp_ms)
      × (0 < b'.max_timestamp_ms)
  unfolding add_event is_batch_active
  add_event-bounds = ground (arith, v.started, v.unstarted)

  add_event_widens :
      let b' = add_event b e (event_size e) in
      1 ≤ length b.log_events
      → (b'.min_timestamp_ms ≤ b.min_timestamp_ms) × (b.max_timestamp_ms ≤ b'.max_timestamp_ms)
  unfolding add_event
  add_event_widens some_event = ground (arith, v.started some_event)

  add_event_covers :
      let b' = add_event b e (event_size e) in
      (b'.min_timestamp_ms ≤ e.timestamp) × (e.timestamp ≤ b'.max_timestamp_ms)
  unfolding add_event
  add_event_covers = ground arith

  add_event-in_range :
      let b' = add_event b e (event_size e) in
      All
        (λ f. (b'.min_timestamp_ms ≤ f.timestamp) × (f.timestamp ≤ b'.max_timestamp_ms))
        b'.log_events
  unfolding add_event
  add_event-in_range =
      All-append _ b.log_events (e ∷ [])
        (All-widen_if b.min_timestamp_ms b.max_timestamp_ms _ _ b.log_events add_event_widens
          v.in_range)
        (add_event_covers, tt)

  add_event-size :
      let b' = add_event b e (event_size e) in
      (length b'.log_events ≤ 10000)
      × (b'.byte_total ≡ bytes b'.log_events)
      × (b'.byte_total ≤ 1048576)
  unfolding add_event event_batch_exceeds_limit
  add_event-size = ground (arith, length-append b.log_events (e ∷ []), bytes-append b.log_events e)

  -- Adding an event that the guards of `sendLogEvent` let through keeps a batch within the limits.
  pub add_event-IsBatch : IsBatch (add_event b e (event_size e))
  add_event-IsBatch =
      let (few, counted, few_bytes) = add_event-size in
      let (bounded, low, high) = add_event-bounds in
      record {
        few_events = few;
        counted = counted;
        few_bytes = few_bytes;
        bounded = bounded;
        started = λ _. (low, high);
        unstarted = λ none_yet. absurd (omega (arith, added_length, none_yet));
        in_range = add_event-in_range;
        small = unfold add_event in All-append _ b.log_events (e ∷ []) v.small (sized, tt);
      }
    where
      added_length : 1 ≤ length (add_event b e (event_size e)).log_events
      added_length = unfold add_event in omega (arith, length-append b.log_events (e ∷ []))

-- A new batch has room for any event that passed the validation.
pub new_batch_open :
    (e : LogEvent) (now : ℕ)
    → event_size e ≤ 262144
    → (event_batch_exceeds_limit (create_event_batch now) (event_size e) ≡ false)
      × (is_batch_active (create_event_batch now) e.timestamp now ≡ true)
unfolding event_batch_exceeds_limit is_batch_active create_event_batch
new_batch_open e now h = ground arith

pub sort_log_events-IsBatch : (b : LogEventBatch) → IsBatch b → IsBatch (sort_log_events b)
unfolding sort_log_events
sort_log_events-IsBatch b v = record {
  few_events = omega (arith, length-sort_events b.log_events, v.few_events);
  counted = omega (arith, bytes-sort_events b.log_events, v.counted);
  few_bytes = v.few_bytes;
  bounded = v.bounded;
  started = λ h. v.started (omega (arith, length-sort_events b.log_events, h));
  unstarted = λ h. v.unstarted (omega (arith, length-sort_events b.log_events, h));
  in_range = All-sort_events _ b.log_events v.in_range;
  small = All-sort_events _ b.log_events v.small;
}

pub sort_events-IsRequest :
    (b : LogEventBatch)
    → IsBatch b
    → is_empty b.log_events ≡ false
    → IsRequest (sort_events b.log_events)
sort_events-IsRequest b v h = record {
  some_event = omega (arith, length-sort_events b.log_events, length_of_nonempty b.log_events h);
  few_events = omega (arith, length-sort_events b.log_events, v.few_events);
  few_bytes = omega (arith, bytes-sort_events b.log_events, v.counted, v.few_bytes);
  sorted = sort_events-IsSorted b.log_events;
  first = b.min_timestamp_ms;
  last = b.max_timestamp_ms;
  within_a_day = v.bounded;
  in_range = All-sort_events _ b.log_events v.in_range;
  small = All-sort_events _ b.log_events v.small;
}
  where
    length_of_nonempty : (es : List LogEvent) → is_empty es ≡ false → 1 ≤ length es
    length_of_nonempty [] h = cc
    length_of_nonempty (e ∷ es) h = omega arith

length-cut : (n : ℕ) (m : List ℕ) → length (take n m ++ cw_truncated_suffix) ≤ n + 14
length-cut n m = omega (arith, length-append (take n m) cw_truncated_suffix, length-take n m)

truncated_lem :
    (e : LogEvent) → (event_size (truncated e) ≤ 262144) × ((truncated e).timestamp ≡ e.timestamp)
unfolding truncated
truncated_lem e = elim (Bool-cases (ltb 262144 (event_size e))) [
  | inl long ↦ rw (long, truncated) (omega (arith, length-cut 262104 e.message), refl)
  | inr short ↦ rw (short, truncated) (ltb_false 262144 (event_size e) short, refl)
]
  where
    ltb_false : (a b : ℕ) → ltb a b ≡ false → b ≤ a
    ltb_false a b h = ground arith

has_valid_time_lem :
    (now : ℕ) (e : LogEvent)
    → has_valid_time now e ≡ true
    → (now ≤ e.timestamp + 1209600000) × (e.timestamp ≤ now + 7200000)
unfolding has_valid_time
has_valid_time_lem now e h = ground arith

-- What the validation lets through: at most 256 KiB by the client's measure, no older than 14 days
-- and no further ahead than 2 hours, with its time unchanged.
pub validate_log_event_lem :
    (now : ℕ) (e v : LogEvent)
    → validate_log_event now e ≡ some v
    → (event_size v ≤ 262144)
      × (v.timestamp ≡ e.timestamp)
      × (now ≤ v.timestamp + 1209600000)
      × (v.timestamp ≤ now + 7200000)
unfolding validate_log_event
validate_log_event_lem now e v h = ground (arith, truncated_lem e, has_valid_time_lem now e)
