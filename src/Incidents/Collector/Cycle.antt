-- ===== src/Incidents/Collector/Cycle.antt =====
-- One collection cycle of serviceevents/collectors/incident-snapshot-collector.ts: the requests
-- between two collections.
use aws_otel_js_instrumentat.Prelude.{
  ℕ, Bool, true, false, ◌||◌, Option, none, some, List, [], ◌∷◌, String, ◌==◌, string_test, ◌≡◌,
  refl, arith,
}
use aws_otel_js_instrumentat.Incidents.Snapshot.{Occurrence, Surroundings}
use aws_otel_js_instrumentat.Incidents.Limiter.{Limiter, batched}
use aws_otel_js_instrumentat.Incidents.Limiter.Admission.{IsLimiter}
use aws_otel_js_instrumentat.Incidents.Pending.{Collector}
use aws_otel_js_instrumentat.Incidents.Collector.{Environment, hash_of, process_potential_incident}
use aws_otel_js_instrumentat.Incidents.Collector.Outcomes.{
  is_some, Outcome, process-Outcome, Outcome-IsLimiter, Outcome-batched,
}
use aws_otel_js_instrumentat.Incidents.Collector.Emissions.{
  Event, Emission, request, step, emissions, noted,
}

abbrev pub requests : List (Surroundings × Occurrence) → List Event
requests [] = []
requests ((s, o) ∷ rs) = request s o ∷ requests rs

abbrev pub has_hash : String → List Emission → Bool
has_hash hash [] = false
has_hash hash ((now, k) ∷ log) = k == hash || has_hash hash log

abbrev pub IsDistinct : List Emission → Type 0
IsDistinct [] = Unit {0}
IsDistinct ((now, k) ∷ log) = (has_hash k log ≡ false) × IsDistinct log

again_step :
    (other hash : String) (now : ℕ) (r : Option ℕ) (l m : Limiter) (later : List Emission)
    → Outcome hash now l (is_some r) m
    → IsLimiter l
    → batched other l ≡ true
    → (batched other m ≡ true → has_hash other later ≡ false)
    → has_hash other (noted now hash r later) ≡ false
unfolding noted
again_step other hash now none l m later out i b ih =
    ground (arith, Outcome-batched other hash now l false m out i, ih)
again_step other hash now (some a) l m later out i b ih =
    ground
      (arith, string_test.same_iff hash other, Outcome-batched other hash now l true m out i, ih)

not_again :
    (env : Environment) (hash : String) (c : Collector) (rs : List (Surroundings × Occurrence))
    → IsLimiter c.limiter
    → batched hash c.limiter ≡ true
    → has_hash hash (emissions env c (requests rs)) ≡ false
unfolding emissions step
not_again env hash c [] i b = refl
not_again env hash c ((s, o) ∷ rs) i b =
    again_step hash (hash_of env s o) s.now (process_potential_incident env s o c).0 c.limiter _ _
      (process-Outcome env s o c) i b
      (not_again env hash (process_potential_incident env s o c).1 rs
        (Outcome-IsLimiter _ _ _ _ _ (process-Outcome env s o c) i))

IsDistinct-step :
    (hash : String) (now : ℕ) (r : Option ℕ) (l m : Limiter) (later : List Emission)
    → Outcome hash now l (is_some r) m
    → IsLimiter l
    → (batched hash m ≡ true → has_hash hash later ≡ false)
    → IsDistinct later
    → IsDistinct (noted now hash r later)
unfolding noted
IsDistinct-step hash now none l m later out i again d = d
IsDistinct-step hash now (some a) l m later out i again d =
    ground (
      arith,
      string_test.same_iff hash hash,
      Outcome-batched hash hash now l true m out i,
      again,
      d,
    )

-- From any collector whose maps hold each hash at most once, the requests up to the next collection
-- make at most one snapshot for each error hash.
pub one_per_cycle :
    (env : Environment) (c : Collector) (rs : List (Surroundings × Occurrence))
    → IsLimiter c.limiter
    → IsDistinct (emissions env c (requests rs))
unfolding emissions step
one_per_cycle env c [] i = tt
one_per_cycle env c ((s, o) ∷ rs) i =
    let i2 = Outcome-IsLimiter _ _ _ _ _ (process-Outcome env s o c) i in
    IsDistinct-step (hash_of env s o) s.now (process_potential_incident env s o c).0 c.limiter _ _
      (process-Outcome env s o c) i
      (not_again env (hash_of env s o) (process_potential_incident env s o c).1 rs i2)
      (one_per_cycle env (process_potential_incident env s o c).1 rs i2)
