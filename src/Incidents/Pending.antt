-- ===== src/Incidents/Pending.antt =====
-- serviceevents/collectors/incident-snapshot-collector.ts: the collector's state, and the upgrade of a
-- pending snapshot. A snapshot and an exemplar are objects that several owners hold: a snapshot
-- carries its address in `object`, the exemplars stand in a store that the endpoint collector reads
-- too.
use aws_otel_js_instrumentat.Prelude.{
  ℕ, suc, Bool, true, false, not, Option, none, some, List, [], ◌∷◌, String, nat_beq, any,
  if◌then◌else◌, lookup, insert, ◌==◌, string_test, nat_test,
}
use aws_otel_js_instrumentat.Incidents.Limiter.{Limiter}
use aws_otel_js_instrumentat.Incidents.Snapshot.{
  TriggerType, Severity, IncidentSnapshot, Occurrence, Surroundings, collect_incident_snapshot,
}

pub record IncidentExemplar : Type 0 where
  pub snapshot_id : String
  pub trigger_type : TriggerType
  pub severity : Severity
  pub timestamp : ℕ

pub record Collector : Type 0 where
  pub limiter : Limiter
  pub pending_snapshots : List IncidentSnapshot
  pub pending_by_hash : List (String × IncidentSnapshot)
  pub pending_exemplar_by_hash : List (String × ℕ)
  pub exemplars : List (ℕ × IncidentExemplar)
  pub next_object : ℕ

unfoldable pub create : ℕ → ℕ → Collector
create max_per_period max_same_error = record {
  limiter = record {
    max_per_period = max_per_period;
    max_same_error = max_same_error;
    snapshot_timestamps = [];
    error_hashes = [];
    current_batch_hashes = [];
  };
  pending_snapshots = [];
  pending_by_hash = [];
  pending_exemplar_by_hash = [];
  exemplars = [];
  next_object = 0;
}

-- `pendingSnapshots[pendingSnapshots.indexOf(pending)] = replacement`
unfoldable pub replace_object : ℕ → IncidentSnapshot → List IncidentSnapshot → List IncidentSnapshot
replace_object object replacement [] = []
replace_object object replacement (s ∷ ss) =
    if nat_beq s.object object then replacement ∷ ss else s ∷ replace_object object replacement ss

abbrev pub is_pending : ℕ → List IncidentSnapshot → Bool
is_pending object ss = any (λ s. nat_beq s.object object) ss

unfoldable pub sync_fields :
    Option IncidentExemplar
    → ℕ
    → IncidentSnapshot
    → List (ℕ × IncidentExemplar)
    → List (ℕ × IncidentExemplar)
sync_fields none address replacement store = store
sync_fields (some x) address replacement store =
    insert address
      (record x { trigger_type = replacement.trigger_type; timestamp = replacement.timestamp })
      store

unfoldable pub sync_exemplar :
    Option ℕ → IncidentSnapshot → List (ℕ × IncidentExemplar) → List (ℕ × IncidentExemplar)
unfolding sync_fields
sync_exemplar none replacement store = store
sync_exemplar (some address) replacement store =
    sync_fields (lookup address store) address replacement store

unfoldable pub swap : String → IncidentSnapshot → IncidentSnapshot → Collector → Collector
unfolding sync_exemplar replace_object
swap hash pending replacement c =
    if is_pending pending.object c.pending_snapshots
    then record c {
      pending_snapshots = replace_object pending.object replacement c.pending_snapshots;
      pending_by_hash = insert hash replacement c.pending_by_hash;
      exemplars = sync_exemplar (lookup hash c.pending_exemplar_by_hash) replacement c.exemplars;
      next_object = suc c.next_object;
    }
    else record c { next_object = suc c.next_object }

unfoldable pub with_replacement :
    String → IncidentSnapshot → Option IncidentSnapshot → Collector → Collector
unfolding swap
with_replacement hash pending none c = c
with_replacement hash pending (some r) c =
    swap hash pending
      (record r {
        snapshot_id = pending.snapshot_id;
        affected_endpoint = pending.affected_endpoint;
      })
      c

is_sampled : Option String → Bool
is_sampled none = false
is_sampled (some trace_id) = not (trace_id == "")

abbrev is_some_id : Option String → Bool
is_some_id none = false
is_some_id (some trace_id) = true

unfoldable pub upgrade_pending :
    String
    → Surroundings
    → Occurrence
    → TriggerType
    → Option IncidentSnapshot
    → Collector
    → Collector
unfolding with_replacement
upgrade_pending hash s o trigger none c = c
upgrade_pending hash s o trigger (some pending) c =
    if is_some_id pending.trace_id
    then c
    else with_replacement hash pending (collect_incident_snapshot c.next_object s o trigger) c

unfoldable pub maybe_upgrade_pending_correlation :
    String → Surroundings → Occurrence → TriggerType → Collector → Collector
unfolding upgrade_pending is_sampled
maybe_upgrade_pending_correlation hash s o trigger c =
    if is_sampled o.trace_id
    then upgrade_pending hash s o trigger (lookup hash c.pending_by_hash) c
    else c
