-- ===== src/Incidents/Collector.antt =====
-- serviceevents/collectors/incident-snapshot-collector.ts: the handlers of one request and of one
-- collection.
pub mod Outcomes
pub mod Emissions
pub mod Cycle
pub mod Owners
pub mod Coherence
pub mod Upkeep
pub mod Runs
use Prim.Native.String
use aws_otel_js_instrumentat.Prelude.{
  ℕ, suc, ◌+◌, Bool, true, false, not, Option, none, some, List, [], ◌∷◌, ◌++◌, String, nat_beq,
  any, is_empty, if◌then◌else◌, lookup, insert, erase, Testable, ◌==◌, string_test, nat_test, ◌≡◌,
  refl,
}
use aws_otel_js_instrumentat.Incidents.Limiter.{Limiter, admit, batched, rollback_reservation}
use aws_otel_js_instrumentat.Incidents.Snapshot.{
  Text, TriggerType, Severity, JsError, ExceptionData, InvestigationData, IncidentSnapshot,
  Occurrence, Surroundings, operation, determine_trigger_type, collect_incident_snapshot,
}
use aws_otel_js_instrumentat.Incidents.Pending.{
  IncidentExemplar, Collector, maybe_upgrade_pending_correlation,
}

-- The configuration, and the code that is not modelled: glob matching, `toUpperCase`, the MD5 of
-- the key and the parser of V8 stacks.
pub record Environment : Type 0 where
  pub latency_threshold_patterns : List (String × ℕ)
  pub duration_threshold_ms : ℕ
  pub minimatch : String → String → Bool
  pub to_upper_case : String → String
  pub md5 : String → String
  pub origin_from_stack : Option Text → Text → String

captured_identity : Environment → Option ExceptionData → Option (String × String)
captured_identity env none = none
captured_identity env (some x) =
    if x.name == "" then none else some (x.name, env.origin_from_stack (some x.traceback) x.message)

identity_in : Environment → Option InvestigationData → Option (String × String)
unfolding captured_identity
identity_in env none = none
identity_in env (some d) = captured_identity env d.thrown

-- The type and the origin of the error, `none` when there is no error.
unfoldable pub recover_error_identity :
    Environment → Option JsError → Option InvestigationData → Option (String × String)
unfolding identity_in
recover_error_identity env none d = identity_in env d
recover_error_identity env (some e) d =
    some (e.constructor_name, env.origin_from_stack e.stack e.message)

unfoldable pub error_hash : Environment → String → Option (String × String) → String
error_hash env op none = env.md5 (String.◌++◌ "op:" op)
error_hash env op (some (kind, origin)) = env.md5 (
    String.◌++◌ "op:"
      (String.◌++◌ op (String.◌++◌ "|exc:" (String.◌++◌ kind (String.◌++◌ ":" origin)))))

abbrev pub hash_of : Environment → Surroundings → Occurrence → String
hash_of env s o =
    error_hash env (operation o) (recover_error_identity env o.exception s.investigation)

abbrev pub trigger_of : Environment → Occurrence → Option TriggerType
trigger_of env o =
    determine_trigger_type env.minimatch env.to_upper_case env.latency_threshold_patterns
      env.duration_threshold_ms o

exemplar_of : IncidentSnapshot → IncidentExemplar
exemplar_of s = record {
  snapshot_id = s.snapshot_id;
  trigger_type = s.trigger_type;
  severity = s.severity;
  timestamp = s.timestamp;
}

-- A new snapshot, and the exemplar allocated next to it.
pub index_snapshot : String → IncidentSnapshot → Collector → Option ℕ × Collector
unfolding exemplar_of
index_snapshot hash s c = (
  some (suc c.next_object),
  record c {
    pending_snapshots = c.pending_snapshots ++ (s ∷ []);
    pending_by_hash = insert hash s c.pending_by_hash;
    pending_exemplar_by_hash = insert hash (suc c.next_object) c.pending_exemplar_by_hash;
    exemplars = insert (suc c.next_object) (exemplar_of s) c.exemplars;
    next_object = suc (suc c.next_object);
  },
)

-- `rollbackReservation`: the limiters and the two indexes.
pub roll_back : String → Collector → Collector
roll_back hash c = record c {
  limiter = rollback_reservation hash c.limiter;
  pending_by_hash = erase hash c.pending_by_hash;
  pending_exemplar_by_hash = erase hash c.pending_exemplar_by_hash;
}

collected : String → Option IncidentSnapshot → Collector → Option ℕ × Collector
unfolding index_snapshot roll_back
collected hash none c = (none, roll_back hash c)
collected hash (some s) c = index_snapshot hash s c

gated :
    String
    → Surroundings
    → Occurrence
    → TriggerType
    → Collector
    → Bool × Limiter
    → Option ℕ × Collector
unfolding collected
gated hash s o trigger c (ok, l) =
    if ok
    then collected hash (collect_incident_snapshot c.next_object s o trigger)
        (record c { limiter = l })
    else (none, record c { limiter = l })

triggered : String → Surroundings → Occurrence → TriggerType → Collector → Option ℕ × Collector
unfolding gated
triggered hash s o trigger c =
    if batched hash c.limiter
    then (none, maybe_upgrade_pending_correlation hash s o trigger c)
    else gated hash s o trigger c (admit hash s.now c.limiter)

process_triggered :
    Environment → Surroundings → Occurrence → Option TriggerType → Collector → Option ℕ × Collector
unfolding triggered
process_triggered env s o none c = (none, c)
process_triggered env s o (some trigger) c = triggered (hash_of env s o) s o trigger c

-- The address of the exemplar that the endpoint collector gets, if any.
unfoldable pub process_potential_incident :
    Environment → Surroundings → Occurrence → Collector → Option ℕ × Collector
unfolding process_triggered
process_potential_incident env s o c = process_triggered env s o (trigger_of env o) c

-- What the collection emits when there is an emitter, and the drained collector.
unfoldable pub collect : Bool → Collector → List IncidentSnapshot × Collector
collect has_emitter c = (
  if has_emitter then c.pending_snapshots else [],
  record c {
    limiter = record c.limiter { current_batch_hashes = [] };
    pending_snapshots = [];
    pending_by_hash = [];
    pending_exemplar_by_hash = [];
  },
)
