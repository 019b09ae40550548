-- ===== src/CloudWatchLogs/Delivery.antt =====
-- Histories of calls of the client of exporter/aws/metrics/cloudwatch-logs-client.ts: what the
-- service has accepted, and what is still pending.
use aws_otel_js_instrumentat.Prelude.{
  ℕ, ◌≤◌, ◌<◌, Bool, true, false, not, ◌&&◌, ◌||◌, Option, none, some, List, [], ◌∷◌, ◌++◌,
  is_empty, if◌then◌else◌, ◌≡◌, refl, All, All-append, arith, Bool-cases, inl, inr, append-nil,
}
use aws_otel_js_instrumentat.CloudWatchLogs.Batch.{
  LogEvent, LogEventBatch, create_event_batch, event_size, validate_log_event,
  event_batch_exceeds_limit, is_batch_active, sort_events,
}
use aws_otel_js_instrumentat.CloudWatchLogs.Client.{
  Service, Client, send_log_batch, send_log_event, flush_pending_events, flush_batch, current_batch,
  after_send, enqueue, send_valid,
}
use aws_otel_js_instrumentat.CloudWatchLogs.Limits.{
  IsRequest, IsBatch, create_event_batch-IsBatch, add_event-IsBatch, new_batch_open,
  sort_log_events-IsBatch, sort_events-IsRequest, validate_log_event_lem,
}

pub send_log_batch_lem :
    (s : Service) (b : LogEventBatch)
    → (send_log_batch s b).1.accepted
      ≡ s.accepted
        ++ (if (send_log_batch s b).0 && not (is_empty b.log_events)
            then sort_events b.log_events ∷ []
            else [])
unfolding send_log_batch
send_log_batch_lem s b = ground (arith, append-nil s.accepted)

send_log_batch-sent :
    (s : Service) (b : LogEventBatch)
    → IsBatch b
    → All IsRequest s.accepted
    → All IsRequest (send_log_batch s b).1.accepted
send_log_batch-sent s b v h = rw (send_log_batch_lem s b) (
    All-append IsRequest s.accepted _ h
      (latest (is_empty b.log_events) refl (send_log_batch s b).0))
  where
    latest :
        (e : Bool)
        → is_empty b.log_events ≡ e
        → (r : Bool) → All IsRequest (if r && not e then sort_events b.log_events ∷ [] else [])
    latest true q true = tt
    latest true q false = tt
    latest false q true = (sort_events-IsRequest b v q, tt)
    latest false q false = tt

pub data Call : Type 0 where
  sends : (now : ℕ) → LogEvent → Call
  flushes : (now : ℕ) → Call

-- A call's result, false when it throws, and the client after it.
unfoldable pub step : Client → Call → Bool × Client
step c (sends now e) = send_log_event c now e
step c (flushes now) = flush_pending_events c now

unfoldable pub run : Client → List Call → Client
run c [] = c
run c (call ∷ calls) = run (step c call).1 calls

abbrev pub Pending : Option LogEventBatch → Type 0
Pending none = Unit {0}
Pending (some b) = IsBatch b

pub record IsClient (c : Client) : Type 0 where
  pub pending : Pending c.event_batch
  pub sent : All IsRequest c.service.accepted

after_send-IsClient :
    (r : Bool × Service) (b : LogEventBatch) (e : LogEvent) (now : ℕ)
    → IsBatch b
    → event_size e ≤ 262144
    → 0 < e.timestamp
    → All IsRequest r.1.accepted
    → IsClient (after_send r b e now).1
unfolding after_send
after_send-IsClient (true, s) b e now v sized dated h =
    let (room, active) = new_batch_open e now sized in
    record {
      pending =
          add_event-IsBatch (create_event_batch now) e now (create_event_batch-IsBatch now) sized
            dated room active;
      sent = h;
    }
after_send-IsClient (false, s) b e now v sized dated h = record {
  pending = sort_log_events-IsBatch b v;
  sent = h;
}

or_not-false : (a b : Bool) → (a || not b) ≡ false → (a ≡ false) × (b ≡ true)
or_not-false a b h = ground arith

enqueue-IsClient :
    (s : Service) (b : LogEventBatch) (e : LogEvent) (now : ℕ)
    → IsBatch b
    → event_size e ≤ 262144
    → 0 < e.timestamp
    → All IsRequest s.accepted
    → IsClient (enqueue s b e now).1
unfolding enqueue
enqueue-IsClient s b e now v sized dated h =
    elim (Bool-cases
      (event_batch_exceeds_limit b (event_size e) || not (is_batch_active b e.timestamp now))) [
        | inl full ↦ rw full (
            after_send-IsClient (send_log_batch s b) b e now v sized dated
              (send_log_batch-sent s b v h))
        | inr open_for ↦
            let (room, active) = or_not-false _ _ open_for in
            rw open_for
              (record { pending = add_event-IsBatch b e now v sized dated room active; sent = h })
      ]

current_batch-IsBatch :
    (o : Option LogEventBatch) (now : ℕ) → Pending o → IsBatch (current_batch o now)
unfolding current_batch
current_batch-IsBatch none now h = create_event_batch-IsBatch now
current_batch-IsBatch (some b) now h = h

send_valid-IsClient :
    (c : Client) (o : Option LogEvent) (now : ℕ)
    → ((e : LogEvent) → o ≡ some e → (event_size e ≤ 262144) × (0 < e.timestamp))
    → IsClient c
    → IsClient (send_valid c o now).1
unfolding send_valid
send_valid-IsClient c none now h v = v
send_valid-IsClient c (some e) now h v =
    enqueue-IsClient c.service (current_batch c.event_batch now) e now
      (current_batch-IsBatch c.event_batch now v.pending) (h e refl).0 (h e refl).1 v.sent

flush_batch-IsClient :
    (c : Client) (o : Option LogEventBatch) (now : ℕ)
    → Pending o
    → IsClient c
    → IsClient (flush_batch c o now).1
unfolding flush_batch
flush_batch-IsClient c none now h v = v
flush_batch-IsClient c (some b) now h v = elim (Bool-cases (is_empty b.log_events)) [
  | inl nothing ↦ rw nothing v
  | inr something ↦ rw something (record {
    pending = create_event_batch-IsBatch now;
    sent = send_log_batch-sent c.service b h v.sent;
  })
]

-- The clock stands past the two weeks that an event's time may lie behind it.
abbrev pub IsDated : Call → Type 0
IsDated (sends now e) = 1209600000 < now
IsDated (flushes now) = Unit {0}

pub step-IsClient :
    (c : Client) (call : Call) → IsDated call → IsClient c → IsClient (step c call).1
unfolding step send_log_event flush_pending_events
step-IsClient c (sends now e) dated v =
    send_valid-IsClient c (validate_log_event now e) now
      (λ valid q.
        let (sized, _, recent, _) = validate_log_event_lem now e valid q in (sized, omega arith))
      v
step-IsClient c (flushes now) dated v = flush_batch-IsClient c c.event_batch now v.pending v
