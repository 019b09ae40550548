-- ===== src/Incidents/Collector/Coherence.antt =====
-- The snapshots and exemplars of one cycle of
-- serviceevents/collectors/incident-snapshot-collector.ts stay coherent with each other.
use aws_otel_js_instrumentat.Prelude.{
  ℕ, true, Option, none, some, List, [], ◌∷◌, ◌++◌, String, nat_beq, lookup, IsMap, nat_test,
  string_test, ◌≡◌, ◌≢◌, refl, ap, ◌⊎◌, inl, inr, arith, if-cases,
}
use aws_otel_js_instrumentat.Incidents.Snapshot.{IncidentSnapshot}
use aws_otel_js_instrumentat.Incidents.Pending.{
  IncidentExemplar, Collector, replace_object, is_pending,
}
use aws_otel_js_instrumentat.Incidents.Collector.Owners.{IsBelow, IsInjective}

abbrev pub Among : IncidentSnapshot → List IncidentSnapshot → Type 0
Among s [] = ⊥
Among s (t ∷ ts) = (t ≡ s) ⊎ Among s ts

abbrev pub object_of : Option IncidentSnapshot → Option ℕ
object_of none = none
object_of (some s) = some s.object

abbrev pub Stored : List (ℕ × IncidentExemplar) → ℕ → IncidentSnapshot → Type 0
Stored store address s =
    (x : IncidentExemplar) × ((lookup address store ≡ some x)
      × ((x.snapshot_id ≡ s.snapshot_id)
          × ((x.trigger_type ≡ s.trigger_type) × (x.timestamp ≡ s.timestamp))))

-- The snapshot pending under a hash waits to be emitted, and the exemplar handed out for the hash
-- has its identity, its trigger and its time.
abbrev pub Tracked : Collector → String → IncidentSnapshot → Type 0
Tracked c hash s =
    Among s c.pending_snapshots
    × ((address : ℕ) × ((lookup hash c.pending_exemplar_by_hash ≡ some address)
          × Stored c.exemplars address s))

pub record IsTracked (c : Collector) : Type 0 where
  pub snapshot_map : IsMap c.pending_by_hash
  pub exemplar_map : IsMap c.pending_exemplar_by_hash
  pub snapshots_below : IsBelow c.next_object (λ hash. object_of (lookup hash c.pending_by_hash))
  pub snapshots_injective : IsInjective (λ hash. object_of (lookup hash c.pending_by_hash))
  pub exemplars_below : IsBelow c.next_object (λ hash. lookup hash c.pending_exemplar_by_hash)
  pub exemplars_injective : IsInjective (λ hash. lookup hash c.pending_exemplar_by_hash)
  pub tracked :
      (hash : String) (s : IncidentSnapshot)
      → lookup hash c.pending_by_hash ≡ some s
      → Tracked c hash s

pub Among-is_pending :
    (s : IncidentSnapshot) (ss : List IncidentSnapshot) → Among s ss → is_pending s.object ss ≡ true
Among-is_pending s [] h = elim h [ ]
Among-is_pending s (t ∷ ts) (inl e) = ground (arith, ap (λ x. x.object) e)
Among-is_pending s (t ∷ ts) (inr h) = ground (arith, Among-is_pending s ts h)

pub Among-append :
    (s t : IncidentSnapshot) (ss : List IncidentSnapshot) → Among s ss → Among s (ss ++ (t ∷ []))
Among-append s t [] h = elim h [ ]
Among-append s t (x ∷ xs) (inl e) = inl e
Among-append s t (x ∷ xs) (inr h) = inr (Among-append s t xs h)

pub Among-new : (t : IncidentSnapshot) (ss : List IncidentSnapshot) → Among t (ss ++ (t ∷ []))
Among-new t [] = inl refl
Among-new t (x ∷ xs) = inr (Among-new t xs)

-- The replacement is among the snapshots, and so is every other object.
pub Among-replaced :
    (object : ℕ) (r : IncidentSnapshot) (ss : List IncidentSnapshot)
    → is_pending object ss ≡ true
    → Among r (replace_object object r ss)
unfolding replace_object
Among-replaced object r [] h = ground arith
Among-replaced object r (t ∷ ts) h =
    if-cases (λ xs. Among r xs) (nat_beq t.object object) (λ _. inl refl)
      λ e. inr (Among-replaced object r ts (ground arith))

pub Among-replace_other :
    (object : ℕ) (r s : IncidentSnapshot) (ss : List IncidentSnapshot)
    → s.object ≢ object
    → Among s ss
    → Among s (replace_object object r ss)
unfolding replace_object
Among-replace_other object r s [] ne h = elim h [ ]
Among-replace_other object r s (t ∷ ts) ne (inl e) =
    if-cases (λ xs. Among s xs) (nat_beq t.object object)
      (λ b. elim (ne (ground (arith, ap (λ x. x.object) e))) [ ]) λ _. inl e
Among-replace_other object r s (t ∷ ts) ne (inr h) =
    if-cases (λ xs. Among s xs) (nat_beq t.object object) (λ _. inr h)
      λ _. inr (Among-replace_other object r s ts ne h)
