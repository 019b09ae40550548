-- ===== src/CloudWatchLogs/Conservation.antt =====
-- No event is lost or doubled by the client of exporter/aws/metrics/cloudwatch-logs-client.ts while
-- its calls return.
use mathlib.Core.List.{Perm}
use mathlib.Core.List.Perm
use aws_otel_js_instrumentat.Prelude.{
  ℕ, Bool, true, false, not, ◌&&◌, ◌||◌, Option, none, some, List, [], ◌∷◌, ◌++◌, is_empty, concat,
  if◌then◌else◌, ◌≡◌, refl, sym, ap, ◌∙◌, subst, append-nil, append_assoc,
}
use aws_otel_js_instrumentat.CloudWatchLogs.Batch.{
  LogEvent, LogEventBatch, create_event_batch, add_event, event_size, validate_log_event,
  event_batch_exceeds_limit, is_batch_active, sort_events,
}
use aws_otel_js_instrumentat.CloudWatchLogs.Client.{
  Service, Client, send_log_batch, send_log_event, flush_pending_events, flush_batch, current_batch,
  after_send, enqueue, send_valid,
}
use aws_otel_js_instrumentat.CloudWatchLogs.Sorting.{sort_events-perm}
use aws_otel_js_instrumentat.CloudWatchLogs.Delivery.{
  Call, sends, flushes, step, run, send_log_batch_lem,
}

abbrev pub pending_events : Option LogEventBatch → List LogEvent
pending_events none = []
pending_events (some b) = b.log_events

-- All that the client has taken: accepted by the service, or still to be sent.
abbrev pub contents : Client → List LogEvent
contents c = concat c.service.accepted ++ pending_events c.event_batch

abbrev valid_event : Option LogEvent → List LogEvent
valid_event none = []
valid_event (some e) = e ∷ []

-- The event that a call offers, as the validation leaves it, if it passes.
abbrev pub offered : Call → List LogEvent
offered (sends now e) = valid_event (validate_log_event now e)
offered (flushes now) = []

concat-concat :
    (xss : List (List LogEvent)) (xs : List LogEvent) → concat (xss ++ xs ∷ []) ≡ concat xss ++ xs
concat-concat [] xs = append-nil xs
concat-concat (ys ∷ xss) xs =
    ap (◌++◌ ys) (concat-concat xss xs) ∙ sym (append_assoc ys (concat xss) xs)

Perm_of_eq : {xs ys : List LogEvent} → xs ≡ ys → Perm xs ys
Perm_of_eq {xs} e = subst (Perm xs) e (Perm.refl xs)

accepted_perm :
    (s : Service) (b : LogEventBatch)
    → (send_log_batch s b).0 ≡ true
    → Perm (concat (send_log_batch s b).1.accepted) (concat s.accepted ++ b.log_events)
accepted_perm s b sent =
    rw (send_log_batch_lem s b, sent) (go (is_empty b.log_events) b.log_events refl)
  where
    go :
        (e : Bool) (es : List LogEvent)
        → is_empty es ≡ e
        → Perm
            (concat (s.accepted ++ (if true && not e then sort_events es ∷ [] else [])))
            (concat s.accepted ++ es)
    go true [] q =
        Perm_of_eq (ap concat (append-nil s.accepted) ∙ sym (append-nil (concat s.accepted)))
    go true (x ∷ es) q = cc
    go false es q =
        Perm.trans (Perm_of_eq (concat-concat s.accepted (sort_events es)))
          (Perm.append_left (concat s.accepted) (sort_events-perm es))

after_send_perm :
    (r : Bool × Service) (b : LogEventBatch) (e : LogEvent) (now : ℕ) (before : List LogEvent)
    → (r.0 ≡ true → Perm (concat r.1.accepted) before)
    → (after_send r b e now).0 ≡ true
    → Perm (contents (after_send r b e now).1) (before ++ e ∷ [])
unfolding after_send add_event create_event_batch
after_send_perm (true, s) b e now before h sent = Perm.append_right (e ∷ []) (h refl)
after_send_perm (false, s) b e now before h sent = cc

enqueue_perm :
    (s : Service) (b : LogEventBatch) (e : LogEvent) (now : ℕ)
    → (enqueue s b e now).0 ≡ true
    → Perm (contents (enqueue s b e now).1) ((concat s.accepted ++ b.log_events) ++ e ∷ [])
unfolding enqueue
enqueue_perm s b e now =
    by_test (event_batch_exceeds_limit b (event_size e) || not (is_batch_active b e.timestamp now))
  where
    by_test :
        (full : Bool)
        → (if full then after_send (send_log_batch s b) b e now else (
          true,
          record { event_batch = some (add_event b e (event_size e)); service = s },
        )).0
          ≡ true
        → Perm
            (contents
              (if full then after_send (send_log_batch s b) b e now else (
                true,
                record { event_batch = some (add_event b e (event_size e)); service = s },
              )).1)
            ((concat s.accepted ++ b.log_events) ++ e ∷ [])
    by_test true sent = after_send_perm (send_log_batch s b) b e now _ (accepted_perm s b) sent
    by_test false sent =
        unfold add_event in
        Perm_of_eq (sym (append_assoc (concat s.accepted) b.log_events (e ∷ [])))

send_valid_perm :
    (c : Client) (o : Option LogEvent) (now : ℕ)
    → (send_valid c o now).0 ≡ true
    → Perm (contents (send_valid c o now).1) (contents c ++ valid_event o)
unfolding send_valid current_batch create_event_batch
send_valid_perm c none now sent = Perm_of_eq (sym (append-nil (contents c)))
send_valid_perm c (some e) now sent = by_batch c.event_batch sent
  where
    by_batch :
        (o : Option LogEventBatch)
        → (enqueue c.service (current_batch o now) e now).0 ≡ true
        → Perm
            (contents (enqueue c.service (current_batch o now) e now).1)
            ((concat c.service.accepted ++ pending_events o) ++ e ∷ [])
    by_batch none sent = enqueue_perm c.service (create_event_batch now) e now sent
    by_batch (some b) sent = enqueue_perm c.service b e now sent

flush_batch_perm :
    (c : Client) (o : Option LogEventBatch) (now : ℕ)
    → c.event_batch ≡ o
    → (flush_batch c o now).0 ≡ true
    → Perm (contents (flush_batch c o now).1) (contents c ++ [])
unfolding flush_batch create_event_batch
flush_batch_perm c none now q sent = Perm_of_eq (sym (append-nil (contents c)))
flush_batch_perm c (some b) now q sent = by_test (is_empty b.log_events) sent
  where
    flushed : Bool × Client
    flushed = (
      (send_log_batch c.service b).0,
      record {
        event_batch = some (create_event_batch now);
        service = (send_log_batch c.service b).1;
      },
    )

    by_test :
        (nothing : Bool)
        → (if nothing then (true, c) else flushed).0 ≡ true
        → Perm (contents (if nothing then (true, c) else flushed).1) (contents c ++ [])
    by_test true sent = Perm_of_eq (sym (append-nil (contents c)))
    by_test false sent =
        rw (append-nil (contents c), q, append-nil (concat (send_log_batch c.service b).1.accepted))
          (accepted_perm c.service b sent)

-- A call that returns keeps all events that the client has taken, and takes the offered one.
pub step_perm :
    (c : Client) (call : Call)
    → (step c call).0 ≡ true
    → Perm (contents (step c call).1) (contents c ++ offered call)
unfolding step send_log_event flush_pending_events
step_perm c (sends now e) sent = send_valid_perm c (validate_log_event now e) now sent
step_perm c (flushes now) sent = flush_batch_perm c c.event_batch now refl sent

abbrev pub AllReturn : Client → List Call → Type 0
AllReturn c [] = Unit {0}
AllReturn c (call ∷ calls) = ((step c call).0 ≡ true) × AllReturn (step c call).1 calls

abbrev pub all_offered : List Call → List LogEvent
all_offered [] = []
all_offered (call ∷ calls) = offered call ++ all_offered calls

-- While every call returns, the events accepted by the service and those still pending are together
-- exactly, with multiplicity, the events that were there before and the valid ones offered.
pub run_perm :
    (c : Client) (calls : List Call)
    → AllReturn c calls
    → Perm (contents (run c calls)) (contents c ++ all_offered calls)
unfolding run
run_perm c [] h = Perm_of_eq (sym (append-nil (contents c)))
run_perm c (call ∷ calls) (sent, h) = Perm.trans (run_perm (step c call).1 calls h) (
    Perm.trans (Perm.append_right (all_offered calls) (step_perm c call sent))
      (Perm_of_eq (append_assoc (contents c) (offered call) (all_offered calls))))
