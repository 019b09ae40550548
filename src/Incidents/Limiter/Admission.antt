-- ===== src/Incidents/Limiter/Admission.antt =====
-- What an admitted and a refused attempt, and the rollback of an admitted one, do to the limiters
-- of serviceevents/collectors/incident-snapshot-collector.ts.
use aws_otel_js_instrumentat.Prelude.{
  ℕ, suc, ◌+◌, ◌≤◌, Bool, true, false, ◌&&◌, ◌||◌, List, [], ◌∷◌, ◌++◌, String, keep_if, drop_last,
  if◌then◌else◌, erase, has_key, IsMap, ◌==◌, string_test, ◌≡◌, refl, arith, length-keep_if-le,
  drop_last-concat, lookup-insert, has_key-insert, insert-IsMap, lookup-erase, erase-IsMap,
}
use aws_otel_js_instrumentat.Incidents.Limiter.{
  Limiter, period_ms, recent, has_rate_limit_room, prune, timestamps_of, is_within_dedup_limit,
  admit, rollback_reservation, batched, record_emission, record_error_hash, add_batch_hash,
}
use aws_otel_js_instrumentat.Incidents.Limiter.Window.{
  in_window, count, count-append, count-recent, is_empty_nil, prune-IsMap, timestamps_of-prune,
  timestamps_of-insert,
}

-- Each hash at most once in the two maps.
abbrev pub IsLimiter : Limiter → Type 0
IsLimiter l = IsMap l.error_hashes × IsMap l.current_batch_hashes

-- The emissions of the window that the limiter of the rate, or of one hash, remembers.
abbrev pub remembered : ℕ → Limiter → ℕ
remembered w l = count w l.snapshot_timestamps

abbrev pub remembered_of : String → ℕ → Limiter → ℕ
remembered_of hash w l = count w (timestamps_of hash l.error_hashes)

abbrev pub admitted : String → ℕ → Limiter → Bool
admitted hash now l = (admit hash now l).0

abbrev pub after : String → ℕ → Limiter → Limiter
after hash now l = (admit hash now l).1

pub admit-limits :
    (hash : String) (now : ℕ) (l : Limiter)
    → ((after hash now l).max_per_period ≡ l.max_per_period)
      × ((after hash now l).max_same_error ≡ l.max_same_error)
unfolding admit is_within_dedup_limit has_rate_limit_room record_emission record_error_hash
    add_batch_hash
admit-limits hash now l = ground arith

pub admit-IsLimiter :
    (hash : String) (now : ℕ) (l : Limiter) → IsLimiter l → IsLimiter (after hash now l)
unfolding admit is_within_dedup_limit has_rate_limit_room record_emission record_error_hash
    add_batch_hash
admit-IsLimiter hash now l h = ground (
  arith,
  prune-IsMap now l.error_hashes h.0,
  insert-IsMap hash (timestamps_of hash (prune now l.error_hashes) ++ (now ∷ []))
      (prune now l.error_hashes),
  insert-IsMap hash tt l.current_batch_hashes h.1,
)

pub remembered-admit :
    (w : ℕ) (hash : String) (now : ℕ) (l : Limiter)
    → now ≤ w + period_ms
    → remembered w (after hash now l)
      ≡ remembered w l + (if admitted hash now l && in_window w now then 1 else 0)
unfolding admit is_within_dedup_limit has_rate_limit_room record_emission record_error_hash
    add_batch_hash
remembered-admit w hash now l h = ground (
  arith,
  count-recent w now l.snapshot_timestamps h,
  count-append w now (keep_if (recent now) l.snapshot_timestamps),
)

pub admitted-remembered :
    (w : ℕ) (hash : String) (now : ℕ) (l : Limiter)
    → now ≤ w + period_ms
    → admitted hash now l ≡ true
    → suc (remembered w l) ≤ l.max_per_period
unfolding admit is_within_dedup_limit has_rate_limit_room
admitted-remembered w hash now l h a = ground (
  arith,
  count-recent w now l.snapshot_timestamps h,
  length-keep_if-le (in_window w) (keep_if (recent now) l.snapshot_timestamps),
)

timestamps_of-admit :
    (other hash : String) (now : ℕ) (l : Limiter)
    → IsLimiter l
    → timestamps_of other (after hash now l).error_hashes ≡ (
        if admitted hash now l && hash == other
        then keep_if (recent now) (timestamps_of other l.error_hashes) ++ (now ∷ [])
        else keep_if (recent now) (timestamps_of other l.error_hashes))
unfolding admit is_within_dedup_limit has_rate_limit_room record_emission record_error_hash
    add_batch_hash
timestamps_of-admit other hash now l i = ground (
  arith,
  string_test.same_iff hash other,
  timestamps_of-prune now other l.error_hashes i.0,
  timestamps_of-insert hash other (timestamps_of hash (prune now l.error_hashes) ++ (now ∷ []))
      (prune now l.error_hashes),
)

pub remembered_of-admit :
    (other : String) (w : ℕ) (hash : String) (now : ℕ) (l : Limiter)
    → IsLimiter l
    → now ≤ w + period_ms
    → remembered_of other w (after hash now l)
      ≡ remembered_of other w l
        + (if admitted hash now l && (hash == other && in_window w now) then 1 else 0)
remembered_of-admit other w hash now l i h = ground (
  arith,
  timestamps_of-admit other hash now l i,
  count-recent w now (timestamps_of other l.error_hashes) h,
  count-append w now (keep_if (recent now) (timestamps_of other l.error_hashes)),
)

pub admitted-remembered_of :
    (w : ℕ) (hash : String) (now : ℕ) (l : Limiter)
    → IsLimiter l
    → now ≤ w + period_ms
    → admitted hash now l ≡ true
    → suc (remembered_of hash w l) ≤ l.max_same_error
unfolding admit is_within_dedup_limit has_rate_limit_room
admitted-remembered_of w hash now l i h a = ground (
  arith,
  count-recent w now (timestamps_of hash l.error_hashes) h,
  timestamps_of-prune now hash l.error_hashes i.0,
  length-keep_if-le (in_window w) (timestamps_of hash (prune now l.error_hashes)),
)

pub batched-admit :
    (other hash : String) (now : ℕ) (l : Limiter)
    → batched other (after hash now l) ≡ (batched other l || (admitted hash now l && hash == other))
unfolding batched admit is_within_dedup_limit has_rate_limit_room record_emission record_error_hash
    add_batch_hash
batched-admit other hash now l = ground (arith, has_key-insert hash other tt l.current_batch_hashes)

-- Rolling an admitted attempt back leaves every window, and every other batch hash, as they were.
pub rollback-limits :
    (hash : String) (l : Limiter)
    → ((rollback_reservation hash l).max_per_period ≡ l.max_per_period)
      × ((rollback_reservation hash l).max_same_error ≡ l.max_same_error)
unfolding rollback_reservation
rollback-limits hash l = (refl, refl)

pub rollback-IsLimiter :
    (hash : String) (l : Limiter) → IsLimiter l → IsLimiter (rollback_reservation hash l)
unfolding rollback_reservation
rollback-IsLimiter hash l i = ground (
  arith,
  erase-IsMap hash l.error_hashes i.0,
  erase-IsMap hash l.current_batch_hashes i.1,
  insert-IsMap hash (drop_last (timestamps_of hash l.error_hashes)) l.error_hashes i.0,
)

pub timestamps-rollback :
    (hash : String) (now : ℕ) (l : Limiter)
    → admitted hash now l ≡ true
    → (rollback_reservation hash (after hash now l)).snapshot_timestamps
      ≡ keep_if (recent now) l.snapshot_timestamps
unfolding rollback_reservation admit is_within_dedup_limit has_rate_limit_room record_emission
    record_error_hash add_batch_hash
timestamps-rollback hash now l a =
    ground (arith, drop_last-concat (keep_if (recent now) l.snapshot_timestamps) now)

timestamps_of-drop_newest :
    (other hash : String) (l : Limiter)
    → IsLimiter l
    → timestamps_of other (rollback_reservation hash l).error_hashes ≡ (
        if hash == other
        then drop_last (timestamps_of other l.error_hashes)
        else timestamps_of other l.error_hashes)
unfolding rollback_reservation
timestamps_of-drop_newest other hash l i = ground (
  arith,
  string_test.same_iff hash other,
  is_empty_nil (timestamps_of hash l.error_hashes),
  is_empty_nil (drop_last (timestamps_of hash l.error_hashes)),
  lookup-erase hash other l.error_hashes i.0,
  lookup-insert hash other (drop_last (timestamps_of hash l.error_hashes)) l.error_hashes,
)

pub timestamps_of-rollback :
    (other hash : String) (now : ℕ) (l : Limiter)
    → IsLimiter l
    → admitted hash now l ≡ true
    → timestamps_of other (rollback_reservation hash (after hash now l)).error_hashes
      ≡ keep_if (recent now) (timestamps_of other l.error_hashes)
timestamps_of-rollback other hash now l i a = ground (
  arith,
  string_test.same_iff hash other,
  timestamps_of-admit other hash now l i,
  timestamps_of-drop_newest other hash (after hash now l) (admit-IsLimiter hash now l i),
  drop_last-concat (keep_if (recent now) (timestamps_of other l.error_hashes)) now,
)

has_key-erase :
    (k other : String) (m : List (String × Unit {0}))
    → IsMap m
    → has_key other (erase k m) ≡ (if k == other then false else has_key other m)
unfolding has_key erase
has_key-erase k other [] h = ground arith
has_key-erase k other ((j, w) ∷ m) h = ground (
  arith,
  string_test.same_iff k other,
  string_test.same_iff j k,
  string_test.same_iff j other,
  has_key-erase k other m h.1,
)

batched-erase :
    (other hash : String) (l : Limiter)
    → IsLimiter l
    → batched other (rollback_reservation hash l)
      ≡ (if hash == other then false else batched other l)
unfolding rollback_reservation batched
batched-erase other hash l i = has_key-erase hash other l.current_batch_hashes i.1

pub batched-rollback :
    (other hash : String) (now : ℕ) (l : Limiter)
    → IsLimiter l
    → batched hash l ≡ false
    → batched other (rollback_reservation hash (after hash now l)) ≡ batched other l
batched-rollback other hash now l i b = ground (
  arith,
  string_test.same_iff hash other,
  batched-admit other hash now l,
  batched-erase other hash (after hash now l) (admit-IsLimiter hash now l i),
)
