-- ===== src/CloudWatchLogs/Sorting.antt =====
-- The stable sort by timestamp that exporter/aws/metrics/cloudwatch-logs-client.ts applies to a
-- batch before it is sent.
use mathlib.Core.List.{Perm}
use mathlib.Core.List.Perm
use aws_otel_js_instrumentat.Prelude.{
  ℕ, suc, ◌+◌, ◌≤◌, List, [], ◌∷◌, length, leb, ◌≡◌, refl, All, arith, Bool-cases, inl, inr,
}
use aws_otel_js_instrumentat.CloudWatchLogs.Batch.{LogEvent, insert_event, sort_events, event_size}

abbrev pub bytes : List LogEvent → ℕ
bytes [] = 0
bytes (e ∷ es) = event_size e + bytes es

-- Ascending by timestamp.
abbrev pub IsSorted : List LogEvent → Type 0
IsSorted [] = Unit {0}
IsSorted (e ∷ es) = All (λ f. e.timestamp ≤ f.timestamp) es × IsSorted es

length-insert_event :
    (e : LogEvent) (es : List LogEvent) → length (insert_event e es) ≡ suc (length es)
unfolding insert_event
length-insert_event e [] = refl
length-insert_event e (f ∷ es) = ground (arith, length-insert_event e es)

pub length-sort_events : (es : List LogEvent) → length (sort_events es) ≡ length es
unfolding sort_events
length-sort_events [] = refl
length-sort_events (e ∷ es) =
    omega (arith, length-insert_event e (sort_events es), length-sort_events es)

bytes-insert_event :
    (e : LogEvent) (es : List LogEvent) → bytes (insert_event e es) ≡ event_size e + bytes es
unfolding insert_event
bytes-insert_event e [] = refl
bytes-insert_event e (f ∷ es) = ground (arith, bytes-insert_event e es)

pub bytes-sort_events : (es : List LogEvent) → bytes (sort_events es) ≡ bytes es
unfolding sort_events
bytes-sort_events [] = refl
bytes-sort_events (e ∷ es) =
    omega (arith, bytes-insert_event e (sort_events es), bytes-sort_events es)

module _ (P : LogEvent → Type 0) where
  All-insert_event :
      (e : LogEvent) (es : List LogEvent) → P e → All P es → All P (insert_event e es)
  unfolding insert_event
  All-insert_event e [] p h = (p, tt)
  All-insert_event e (f ∷ es) p h = ground (arith, All-insert_event e es p h.1)

  pub All-sort_events : (es : List LogEvent) → All P es → All P (sort_events es)
  unfolding sort_events
  All-sort_events [] h = tt
  All-sort_events (e ∷ es) h = All-insert_event e (sort_events es) h.0 (All-sort_events es h.1)

All-later :
    (s t : ℕ) (es : List LogEvent)
    → s ≤ t
    → All (λ f. t ≤ f.timestamp) es
    → All (λ f. s ≤ f.timestamp) es
All-later s t [] h a = tt
All-later s t (e ∷ es) h a = (omega arith, All-later s t es h a.1)

insert_event-IsSorted :
    (e : LogEvent) (es : List LogEvent) → IsSorted es → IsSorted (insert_event e es)
unfolding insert_event
insert_event-IsSorted e [] h = (tt, tt)
insert_event-IsSorted e (f ∷ es) h = ground (
  arith,
  All-later e.timestamp f.timestamp es,
  insert_event-IsSorted e es h.1,
  All-insert_event (λ (g : LogEvent). f.timestamp ≤ g.timestamp) e es,
)

pub sort_events-IsSorted : (es : List LogEvent) → IsSorted (sort_events es)
unfolding sort_events
sort_events-IsSorted [] = tt
sort_events-IsSorted (e ∷ es) = insert_event-IsSorted e (sort_events es) (sort_events-IsSorted es)

insert_event-perm : (e : LogEvent) (es : List LogEvent) → Perm (insert_event e es) (e ∷ es)
unfolding insert_event
insert_event-perm e [] = Perm.refl (e ∷ [])
insert_event-perm e (f ∷ es) = elim (Bool-cases (leb e.timestamp f.timestamp)) [
  | inl first ↦ rw first (Perm.refl (e ∷ f ∷ es))
  | inr later ↦ rw later (Perm.trans (Perm.cons f (insert_event-perm e es)) (Perm.swap e f es))
]

pub sort_events-perm : (es : List LogEvent) → Perm (sort_events es) es
unfolding sort_events
sort_events-perm [] = Perm.refl []
sort_events-perm (e ∷ es) =
    Perm.trans (insert_event-perm e (sort_events es)) (Perm.cons e (sort_events-perm es))
