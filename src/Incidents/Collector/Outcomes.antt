-- ===== src/Incidents/Collector/Outcomes.antt =====
-- The four ways a request to serviceevents/collectors/incident-snapshot-collector.ts leaves its
-- limiters, and what each of them remembers.
use aws_otel_js_instrumentat.Prelude.{
  ℕ, suc, ◌+◌, ◌≤◌, Bool, true, false, ◌&&◌, ◌||◌, Option, none, some, String, if◌then◌else◌, ◌==◌,
  string_test, ◌≡◌, refl, sym, subst, arith, if-cases,
}
use aws_otel_js_instrumentat.Incidents.Snapshot.{
  TriggerType, IncidentSnapshot, Occurrence, Surroundings,
}
use aws_otel_js_instrumentat.Incidents.Limiter.{
  Limiter, period_ms, batched, rollback_reservation, timestamps_of,
}
use aws_otel_js_instrumentat.Incidents.Limiter.Window.{in_window, count-recent}
use aws_otel_js_instrumentat.Incidents.Limiter.Admission.{
  IsLimiter, remembered, remembered_of, admitted, after, admit-limits, admit-IsLimiter,
  remembered-admit, admitted-remembered, remembered_of-admit, admitted-remembered_of, batched-admit,
  rollback-limits, rollback-IsLimiter, timestamps-rollback, timestamps_of-rollback,
  batched-rollback,
}
use aws_otel_js_instrumentat.Incidents.Pending.{Collector, maybe_upgrade_pending_correlation}
use aws_otel_js_instrumentat.Incidents.Collector.{
  Environment, hash_of, trigger_of, process_potential_incident, process_triggered, triggered, gated,
  collected,
}

abbrev pub is_some : Option ℕ → Bool
is_some none = false
is_some (some a) = true

upgrade-limiter :
    (hash : String) (s : Surroundings) (o : Occurrence) (t : TriggerType) (c : Collector)
    → (maybe_upgrade_pending_correlation hash s o t c).limiter ≡ c.limiter
unfolding maybe_upgrade_pending_correlation
upgrade-limiter hash s o t c = ground arith

-- The four ways a request leaves the limiters: untouched, refused, rolled back, or let through.
pub data Outcome (hash : String) (now : ℕ) (l : Limiter) : Bool → Limiter → Type 0 where
  untouched : Outcome hash now l false l
  refused : admitted hash now l ≡ false → Outcome hash now l false (after hash now l)
  rolled_back :
      admitted hash now l ≡ true
      → batched hash l ≡ false
      → Outcome hash now l false (rollback_reservation hash (after hash now l))
  let_through :
      admitted hash now l ≡ true
      → batched hash l ≡ false
      → Outcome hash now l true (after hash now l)

abbrev Ends : String → ℕ → Limiter → Option ℕ × Collector → Type 0
Ends hash now l r = Outcome hash now l (is_some r.0) r.1.limiter

collected-Ends :
    (hash : String) (now : ℕ) (l : Limiter) (snapshot : Option IncidentSnapshot) (c : Collector)
    → c.limiter ≡ after hash now l
    → admitted hash now l ≡ true
    → batched hash l ≡ false
    → Ends hash now l (collected hash snapshot c)
unfolding collected
collected-Ends hash now l none c e a b =
    subst (λ m. Outcome hash now l false (rollback_reservation hash m)) (sym e) (rolled_back a b)
collected-Ends hash now l (some s) c e a b =
    subst (λ m. Outcome hash now l true m) (sym e) (let_through a b)

triggered-Ends :
    (hash : String) (s : Surroundings) (o : Occurrence) (t : TriggerType) (c : Collector)
    → Ends hash s.now c.limiter (triggered hash s o t c)
unfolding triggered gated
triggered-Ends hash s o t c =
    if-cases (Ends hash s.now c.limiter) (batched hash c.limiter)
      (λ b.
        subst (λ m. Outcome hash s.now c.limiter false m) (sym (upgrade-limiter hash s o t c))
          untouched)
      λ b.
        if-cases (Ends hash s.now c.limiter) (admitted hash s.now c.limiter)
          (λ a. collected-Ends hash s.now c.limiter _ _ refl a b) refused

process_triggered-Ends :
    (env : Environment) (s : Surroundings) (o : Occurrence) (t : Option TriggerType) (c : Collector)
    → Ends (hash_of env s o) s.now c.limiter (process_triggered env s o t c)
unfolding process_triggered
process_triggered-Ends env s o none c = untouched
process_triggered-Ends env s o (some t) c = triggered-Ends (hash_of env s o) s o t c

pub process-Outcome :
    (env : Environment) (s : Surroundings) (o : Occurrence) (c : Collector)
    → Outcome
        (hash_of env s o)
        s.now
        c.limiter
        (is_some (process_potential_incident env s o c).0)
        (process_potential_incident env s o c).1.limiter
unfolding process_potential_incident
process-Outcome env s o c = process_triggered-Ends env s o (trigger_of env o) c

pub Outcome-limits :
    (hash : String) (now : ℕ) (l : Limiter) (ok : Bool) (m : Limiter)
    → Outcome hash now l ok m
    → (m.max_per_period ≡ l.max_per_period) × (m.max_same_error ≡ l.max_same_error)
Outcome-limits hash now l _ _ untouched = (refl, refl)
Outcome-limits hash now l _ _ (refused a) = admit-limits hash now l
Outcome-limits hash now l _ _ (rolled_back a b) =
    ground (arith, admit-limits hash now l, rollback-limits hash (after hash now l))
Outcome-limits hash now l _ _ (let_through a b) = admit-limits hash now l

pub Outcome-IsLimiter :
    (hash : String) (now : ℕ) (l : Limiter) (ok : Bool) (m : Limiter)
    → Outcome hash now l ok m
    → IsLimiter l
    → IsLimiter m
Outcome-IsLimiter hash now l _ _ untouched i = i
Outcome-IsLimiter hash now l _ _ (refused a) i = admit-IsLimiter hash now l i
Outcome-IsLimiter hash now l _ _ (rolled_back a b) i =
    rollback-IsLimiter hash (after hash now l) (admit-IsLimiter hash now l i)
Outcome-IsLimiter hash now l _ _ (let_through a b) i = admit-IsLimiter hash now l i

pub Outcome-remembered :
    (w : ℕ) (hash : String) (now : ℕ) (l : Limiter) (ok : Bool) (m : Limiter)
    → Outcome hash now l ok m
    → now ≤ w + period_ms
    → (remembered w m ≡ remembered w l + (if ok && in_window w now then 1 else 0))
      × (ok ≡ true → suc (remembered w l) ≤ l.max_per_period)
Outcome-remembered w hash now l _ _ untouched h = ground arith
Outcome-remembered w hash now l _ _ (refused a) h = ground (arith, remembered-admit w hash now l h)
Outcome-remembered w hash now l _ _ (rolled_back a b) h =
    ground (arith, timestamps-rollback hash now l a, count-recent w now l.snapshot_timestamps h)
Outcome-remembered w hash now l _ _ (let_through a b) h =
    ground (arith, remembered-admit w hash now l h, admitted-remembered w hash now l h a)

pub Outcome-remembered_of :
    (other : String) (w : ℕ) (hash : String) (now : ℕ) (l : Limiter) (ok : Bool) (m : Limiter)
    → Outcome hash now l ok m
    → IsLimiter l
    → now ≤ w + period_ms
    → (remembered_of other w m
        ≡ remembered_of other w l + (if ok && (hash == other && in_window w now) then 1 else 0))
      × (ok ≡ true → hash ≡ other → suc (remembered_of other w l) ≤ l.max_same_error)
Outcome-remembered_of other w hash now l _ _ untouched i h = ground arith
Outcome-remembered_of other w hash now l _ _ (refused a) i h =
    ground (arith, remembered_of-admit other w hash now l i h)
Outcome-remembered_of other w hash now l _ _ (rolled_back a b) i h = ground (
  arith,
  timestamps_of-rollback other hash now l i a,
  count-recent w now (timestamps_of other l.error_hashes) h,
)
Outcome-remembered_of other w hash now l _ _ (let_through a b) i h = (
  ground (arith, remembered_of-admit other w hash now l i h),
  λ _ e.
      subst (λ k. suc (remembered_of k w l) ≤ l.max_same_error) e
        (admitted-remembered_of w hash now l i h a),
)

-- What the batch set says of a hash after one request.
pub Outcome-batched :
    (other hash : String) (now : ℕ) (l : Limiter) (ok : Bool) (m : Limiter)
    → Outcome hash now l ok m
    → IsLimiter l
    → (batched other m ≡ (batched other l || (ok && hash == other)))
      × (ok ≡ true → batched hash l ≡ false)
Outcome-batched other hash now l _ _ untouched i = ground arith
Outcome-batched other hash now l _ _ (refused a) i = ground (arith, batched-admit other hash now l)
Outcome-batched other hash now l _ _ (rolled_back a b) i =
    ground (arith, batched-rollback other hash now l i b)
Outcome-batched other hash now l _ _ (let_through a b) i =
    ground (arith, batched-admit other hash now l)
