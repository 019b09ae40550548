-- ===== src/Incidents/Collector/Upkeep.antt =====
-- A new snapshot, and an upgrade, in serviceevents/collectors/incident-snapshot-collector.ts keep the
-- snapshots and the exemplars coherent.
use aws_otel_js_instrumentat.Prelude.{
  ℕ, suc, Option, none, some, List, String, if◌then◌else◌, lookup, insert, erase, IsMap, ◌==◌,
  nat_test, string_test, ◌≡◌, ◌≢◌, refl, sym, ap, ◌∙◌, arith, lookup-insert, lookup-insert_same,
  lookup-insert_other, lookup-insert-cases, lookup-erase, insert-IsMap,
}
use aws_otel_js_instrumentat.Incidents.Snapshot.{IncidentSnapshot}
use aws_otel_js_instrumentat.Incidents.Pending.{
  IncidentExemplar, Collector, replace_object, swap, sync_exemplar, sync_fields,
}
use aws_otel_js_instrumentat.Incidents.Collector.{index_snapshot}
use aws_otel_js_instrumentat.Incidents.Collector.Owners.{IsBelow-more, IsBelow-set, IsInjective-set}
use aws_otel_js_instrumentat.Incidents.Collector.Coherence.{
  Among, object_of, Tracked, IsTracked, Among-is_pending, Among-append, Among-new, Among-replaced,
  Among-replace_other,
}

object_of-insert :
    (hash other : String) (s : IncidentSnapshot) (m : List (String × IncidentSnapshot))
    → object_of (lookup other (insert hash s m))
      ≡ (if hash == other then some s.object else object_of (lookup other m))
object_of-insert hash other s m = ground (arith, lookup-insert hash other s m)

pub object_of-erase :
    (hash other : String) (m : List (String × IncidentSnapshot))
    → IsMap m
    → object_of (lookup other (erase hash m))
      ≡ (if hash == other then none else object_of (lookup other m))
object_of-erase hash other m h = ground (arith, lookup-erase hash other m h)

-- A new snapshot and its exemplar.
Tracked-new :
    (hash : String) (s : IncidentSnapshot) (c : Collector)
    → Tracked (index_snapshot hash s c).1 hash s
unfolding index_snapshot
Tracked-new hash s c = (
  Among-new s c.pending_snapshots,
  (
    suc c.next_object,
    (
      lookup-insert_same hash (suc c.next_object) c.pending_exemplar_by_hash,
      (_, (lookup-insert_same (suc c.next_object) _ c.exemplars, (refl, (refl, refl)))),
    ),
  ),
)

Tracked-old :
    (hash other : String) (s t : IncidentSnapshot) (c : Collector)
    → IsTracked c
    → hash ≢ other
    → Tracked c other t
    → Tracked (index_snapshot hash s c).1 other t
unfolding index_snapshot
Tracked-old hash other s t c h ne (among, (address, (e, (x, (stored, same))))) = (
  Among-append t s c.pending_snapshots among,
  (
    address,
    (
      lookup-insert_other hash other (suc c.next_object) c.pending_exemplar_by_hash ne ∙ e,
      (
        x,
        (
          lookup-insert_other (suc c.next_object) address _ c.exemplars
                (ground (arith, h.exemplars_below other address e))
              ∙ stored,
          same,
        ),
      ),
    ),
  ),
)

pub index-IsTracked :
    (hash : String) (s : IncidentSnapshot) (c : Collector)
    → s.object ≡ c.next_object
    → IsTracked c
    → IsTracked (index_snapshot hash s c).1
unfolding index_snapshot
index-IsTracked hash s c fresh h = record {
  snapshot_map = insert-IsMap hash s c.pending_by_hash h.snapshot_map;
  exemplar_map = insert-IsMap hash (suc c.next_object) c.pending_exemplar_by_hash h.exemplar_map;
  snapshots_below =
      IsBelow-more (suc s.object) (suc (suc c.next_object)) _ (ground (arith, fresh)) (
        IsBelow-set c.next_object s.object hash _ _ (ground (arith, fresh))
          (λ other. object_of-insert hash other s c.pending_by_hash) h.snapshots_below);
  snapshots_injective =
      IsInjective-set c.next_object s.object hash _ _ (ground (arith, fresh))
        (λ other. object_of-insert hash other s c.pending_by_hash) h.snapshots_below
        h.snapshots_injective;
  exemplars_below =
      IsBelow-set c.next_object (suc c.next_object) hash _ _ (omega arith)
        (λ other. lookup-insert hash other (suc c.next_object) c.pending_exemplar_by_hash)
        h.exemplars_below;
  exemplars_injective =
      IsInjective-set c.next_object (suc c.next_object) hash _ _ (omega arith)
        (λ other. lookup-insert hash other (suc c.next_object) c.pending_exemplar_by_hash)
        h.exemplars_below h.exemplars_injective;
  tracked = λ other t e.
      lookup-insert-cases (Tracked (index_snapshot hash s c).1) hash other s t c.pending_by_hash
        (Tracked-new hash s c) (λ ne e2. Tracked-old hash other s t c h ne (h.tracked other t e2))
        e;
}

-- What an upgrade leaves, once the exemplar `x` at `address` is found.
abbrev pub swapped :
    String → IncidentSnapshot → IncidentSnapshot → ℕ → IncidentExemplar → Collector → Collector
swapped hash pending r address x c = record c {
  pending_snapshots = replace_object pending.object r c.pending_snapshots;
  pending_by_hash = insert hash r c.pending_by_hash;
  exemplars =
      insert address (record x { trigger_type = r.trigger_type; timestamp = r.timestamp })
        c.exemplars;
  next_object = suc c.next_object;
}

sync_exemplar_lem :
    (a : Option ℕ) (address : ℕ) (x : IncidentExemplar) (r : IncidentSnapshot)
    (store : List (ℕ × IncidentExemplar))
    → a ≡ some address
    → lookup address store ≡ some x
    → sync_exemplar a r store
      ≡ insert address (record x { trigger_type = r.trigger_type; timestamp = r.timestamp }) store
unfolding sync_exemplar sync_fields
sync_exemplar_lem a address x r store e stored = ground arith

pub swap_lem :
    (hash : String) (pending r : IncidentSnapshot) (address : ℕ) (x : IncidentExemplar)
    (c : Collector)
    → Among pending c.pending_snapshots
    → lookup hash c.pending_exemplar_by_hash ≡ some address
    → lookup address c.exemplars ≡ some x
    → swap hash pending r c ≡ swapped hash pending r address x c
unfolding swap
swap_lem hash pending r address x c among e stored = ground (
  arith,
  Among-is_pending pending c.pending_snapshots among,
  sync_exemplar_lem (lookup hash c.pending_exemplar_by_hash) address x r c.exemplars e stored,
)

-- The snapshots under other hashes.
Tracked-beside :
    (hash other : String) (pending r t : IncidentSnapshot) (address : ℕ) (x : IncidentExemplar)
    (c : Collector)
    → lookup hash c.pending_by_hash ≡ some pending
    → lookup hash c.pending_exemplar_by_hash ≡ some address
    → IsTracked c
    → hash ≢ other
    → lookup other c.pending_by_hash ≡ some t
    → Tracked c other t
    → Tracked (swapped hash pending r address x c) other t
Tracked-beside hash other pending r t address x c found at h ne e2
      (among, (b, (e, (y, (stored, same))))) =
    (
      Among-replace_other pending.object r t c.pending_snapshots
          (λ q. ne (
            h.snapshots_injective hash other pending.object (ap object_of found)
              (ap object_of e2 ∙ ap some q)))
          among,
      (
        b,
        (
          e,
          (
            y,
            (
              lookup-insert_other address b _ c.exemplars
                    (λ q. ne (h.exemplars_injective hash other address at (e ∙ ap some (sym q))))
                  ∙ stored,
              same,
            ),
          ),
        ),
      ),
    )

pub swapped-IsTracked :
    (hash : String) (pending r : IncidentSnapshot) (address : ℕ) (x : IncidentExemplar)
    (c : Collector)
    → r.object ≡ c.next_object
    → r.snapshot_id ≡ pending.snapshot_id
    → x.snapshot_id ≡ pending.snapshot_id
    → lookup hash c.pending_by_hash ≡ some pending
    → lookup hash c.pending_exemplar_by_hash ≡ some address
    → IsTracked c
    → IsTracked (swapped hash pending r address x c)
swapped-IsTracked hash pending r address x c fresh id same found at h = record {
  snapshot_map = insert-IsMap hash r c.pending_by_hash h.snapshot_map;
  exemplar_map = h.exemplar_map;
  snapshots_below = IsBelow-more (suc r.object) (suc c.next_object) _ (ground (arith, fresh)) (
      IsBelow-set c.next_object r.object hash _ _ (ground (arith, fresh))
        (λ other. object_of-insert hash other r c.pending_by_hash) h.snapshots_below);
  snapshots_injective =
      IsInjective-set c.next_object r.object hash _ _ (ground (arith, fresh))
        (λ other. object_of-insert hash other r c.pending_by_hash) h.snapshots_below
        h.snapshots_injective;
  exemplars_below =
      IsBelow-more c.next_object (suc c.next_object) _ (omega arith) h.exemplars_below;
  exemplars_injective = h.exemplars_injective;
  tracked = λ other t e.
      lookup-insert-cases (Tracked (swapped hash pending r address x c)) hash other r t
        c.pending_by_hash
        (
          Among-replaced pending.object r c.pending_snapshots
              (Among-is_pending pending c.pending_snapshots (h.tracked hash pending found).0),
          (
            address,
            (at, (_, (lookup-insert_same address _ c.exemplars, (same ∙ sym id, (refl, refl))))),
          ),
        )
        (λ ne e2.
          Tracked-beside hash other pending r t address x c found at h ne e2 (h.tracked other t e2))
        e;
}
