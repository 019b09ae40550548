-- ===== src/Incidents/Limiter.antt =====
-- serviceevents/collectors/incident-snapshot-collector.ts: the limiters of snapshots. Times are
-- whole milliseconds, so the window of 60 seconds is 60000; the maps keep insertion order.
pub mod Window
pub mod Admission
use aws_otel_js_instrumentat.Prelude.{
  ℕ, ◌+◌, Bool, true, false, Option, none, some, List, [], ◌∷◌, ◌++◌, String, length, keep_if,
  drop_last, is_empty, leb, ltb, if◌then◌else◌, lookup, insert, erase, has_key, string_test,
}

pub record Limiter : Type 0 where
  pub max_per_period : ℕ
  pub max_same_error : ℕ
  pub snapshot_timestamps : List ℕ
  pub error_hashes : List (String × List ℕ)
  pub current_batch_hashes : List (String × Unit {0})

abbrev pub period_ms : ℕ
period_ms = 60000

-- `ts >= currentTime - periodSeconds`
abbrev pub recent : ℕ → ℕ → Bool
recent now ts = leb now (ts + period_ms)

unfoldable pub has_rate_limit_room : ℕ → Limiter → Bool × Limiter
has_rate_limit_room now l =
    let kept = keep_if (recent now) l.snapshot_timestamps in
    (ltb (length kept) l.max_per_period, record l { snapshot_timestamps = kept })

unfoldable pub record_emission : ℕ → Limiter → Limiter
record_emission now l = record l { snapshot_timestamps = l.snapshot_timestamps ++ (now ∷ []) }

unfoldable pub prune : ℕ → List (String × List ℕ) → List (String × List ℕ)
prune now [] = []
prune now ((hash, timestamps) ∷ m) =
    let rest = prune now m in
    let kept = keep_if (recent now) timestamps in
    if is_empty kept then rest else (hash, kept) ∷ rest

abbrev pub timestamps_of : String → List (String × List ℕ) → List ℕ
timestamps_of hash m = elim (lookup hash m) [ none ↦ [] | some timestamps ↦ timestamps ]

unfoldable pub is_within_dedup_limit : String → ℕ → Limiter → Bool × Limiter
is_within_dedup_limit hash now l =
    let live = prune now l.error_hashes in
    (leb (length (timestamps_of hash live) + 1) l.max_same_error, record l { error_hashes = live })

unfoldable pub record_error_hash : String → ℕ → Limiter → Limiter
record_error_hash hash now l = record l {
  error_hashes = insert hash (timestamps_of hash l.error_hashes ++ (now ∷ [])) l.error_hashes;
}

unfoldable pub add_batch_hash : String → Limiter → Limiter
add_batch_hash hash l = record l { current_batch_hashes = insert hash tt l.current_batch_hashes }

put_back : String → List ℕ → List (String × List ℕ) → List (String × List ℕ)
put_back hash timestamps m = if is_empty timestamps then erase hash m else insert hash timestamps m

drop_newest : String → List (String × List ℕ) → List (String × List ℕ)
unfolding put_back
drop_newest hash m =
    if is_empty (timestamps_of hash m)
    then m
    else put_back hash (drop_last (timestamps_of hash m)) m

-- The limiters' share of `rollbackReservation`.
unfoldable pub rollback_reservation : String → Limiter → Limiter
unfolding drop_newest
rollback_reservation hash l = record l {
  current_batch_hashes = erase hash l.current_batch_hashes;
  error_hashes = drop_newest hash l.error_hashes;
  snapshot_timestamps = drop_last l.snapshot_timestamps;
}

-- The gates of `processPotentialIncident`, with what they commit when all of them pass. The batch
-- gate is `batched`, which the caller tests first.
unfoldable pub batched : String → Limiter → Bool
batched hash l = has_key hash l.current_batch_hashes

commit : String → ℕ → Limiter → Limiter
unfolding add_batch_hash record_error_hash record_emission
commit hash now l = record_emission now (record_error_hash hash now (add_batch_hash hash l))

through_rate : String → ℕ → Bool × Limiter → Bool × Limiter
unfolding commit
through_rate hash now (room, l) = if room then (true, commit hash now l) else (false, l)

through_dedup : String → ℕ → Bool × Limiter → Bool × Limiter
unfolding through_rate has_rate_limit_room
through_dedup hash now (within, l) =
    if within then through_rate hash now (has_rate_limit_room now l) else (false, l)

unfoldable pub admit : String → ℕ → Limiter → Bool × Limiter
unfolding through_dedup is_within_dedup_limit
admit hash now l = through_dedup hash now (is_within_dedup_limit hash now l)
