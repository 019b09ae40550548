-- ===== src/Incidents/Collector/Emissions.antt =====
-- How many snapshots serviceevents/collectors/incident-snapshot-collector.ts lets through: per
-- window of 60 seconds, per error, and per collection cycle.

use aws_otel_js_instrumentat.Prelude.{
  ℕ, ◌+◌, ◌≤◌, ◌<◌, Bool, true, false, ◌&&◌, Option, none, some, List, [], ◌∷◌, String,
  if◌then◌else◌, ◌==◌, string_test, lookup, ◌≡◌, refl, arith,
}
use aws_otel_js_instrumentat.Incidents.Snapshot.{Occurrence, Surroundings}
use aws_otel_js_instrumentat.Incidents.Limiter.{Limiter, period_ms}
use aws_otel_js_instrumentat.Incidents.Limiter.Window.{in_window}
use aws_otel_js_instrumentat.Incidents.Limiter.Admission.{IsLimiter, remembered, remembered_of}
use aws_otel_js_instrumentat.Incidents.Pending.{Collector, create}
use aws_otel_js_instrumentat.Incidents.Collector.{
  Environment, hash_of, process_potential_incident, collect,
}
use aws_otel_js_instrumentat.Incidents.Collector.Outcomes.{
  is_some, Outcome, process-Outcome, Outcome-limits, Outcome-IsLimiter, Outcome-remembered,
  Outcome-remembered_of,
}

pub data Event : Type 0 where
  request : Surroundings → Occurrence → Event
  collection : Bool → Event

abbrev pub Emission : Type 0
Emission = ℕ × String

unfoldable pub step : Environment → Collector → Event → Collector
step env c (request s o) = (process_potential_incident env s o c).1
step env c (collection has_emitter) = (collect has_emitter c).1

unfoldable pub noted : ℕ → String → Option ℕ → List Emission → List Emission
noted now hash none later = later
noted now hash (some address) later = (now, hash) ∷ later

-- The snapshots made by the events, each with its time and its hash.
unfoldable pub emissions : Environment → Collector → List Event → List Emission
unfolding noted
emissions env c [] = []
emissions env c (request s o ∷ later) =
    let rest = emissions env (step env c (request s o)) later in
    noted s.now (hash_of env s o) (process_potential_incident env s o c).0 rest
emissions env c (collection has_emitter ∷ later) =
    emissions env (step env c (collection has_emitter)) later

-- Requests at times that do not run backwards.
abbrev pub Ascending : ℕ → List Event → Type 0
Ascending lo [] = Unit {0}
Ascending lo (request s o ∷ later) = (lo ≤ s.now) × Ascending s.now later
Ascending lo (collection has_emitter ∷ later) = Ascending lo later

abbrev pub count_in : ℕ → List Emission → ℕ
count_in w [] = 0
count_in w ((now, hash) ∷ later) = (if in_window w now then 1 else 0) + count_in w later

abbrev pub count_of : String → ℕ → List Emission → ℕ
count_of other w [] = 0
count_of other w ((now, hash) ∷ later) =
    (if hash == other && in_window w now then 1 else 0) + count_of other w later

-- Past the window nothing counts.
count_in_past :
    (env : Environment) (w lo : ℕ) (c : Collector) (events : List Event)
    → Ascending lo events
    → w + period_ms < lo
    → count_in w (emissions env c events) ≡ 0
unfolding emissions
count_in_past env w lo c [] a h = refl
count_in_past env w lo c (request s o ∷ later) a h =
    ground (arith, count_in_past env w s.now (step env c (request s o)) later a.1)
count_in_past env w lo c (collection e ∷ later) a h =
    count_in_past env w lo (step env c (collection e)) later a h

count_of_in : (hash : String) (w : ℕ) (log : List Emission) → count_of hash w log ≤ count_in w log
count_of_in hash w [] = omega arith
count_of_in hash w ((now, k) ∷ log) = ground (arith, count_of_in hash w log)

-- The step of the window's bound: `later` are the later snapshots, `m` is the limiter's next state.
bound_step :
    (w : ℕ) (hash : String) (now : ℕ) (r : Option ℕ) (l m : Limiter) (later : List Emission)
    → Outcome hash now l (is_some r) m
    → remembered w l ≤ l.max_per_period
    → (remembered w m ≤ m.max_per_period → count_in w later + remembered w m ≤ m.max_per_period)
    → (w + period_ms < now → count_in w later ≡ 0)
    → count_in w (noted now hash r later) + remembered w l ≤ l.max_per_period
unfolding noted
bound_step w hash now none l m later out h ih past = ground (
  arith,
  Outcome-limits hash now l false m out,
  Outcome-remembered w hash now l false m out,
  ih,
  past,
)
bound_step w hash now (some a) l m later out h ih past = ground (
  arith,
  Outcome-limits hash now l true m out,
  Outcome-remembered w hash now l true m out,
  ih,
  past,
)

count_in_bound :
    (env : Environment) (w lo : ℕ) (c : Collector) (events : List Event)
    → Ascending lo events
    → remembered w c.limiter ≤ c.limiter.max_per_period
    → count_in w (emissions env c events) + remembered w c.limiter ≤ c.limiter.max_per_period
unfolding emissions step collect
count_in_bound env w lo c [] a h = omega (arith, h)
count_in_bound env w lo c (request s o ∷ later) a h =
    bound_step w (hash_of env s o) s.now (process_potential_incident env s o c).0 c.limiter
      (process_potential_incident env s o c).1.limiter _ (process-Outcome env s o c) h
      (count_in_bound env w s.now (process_potential_incident env s o c).1 later a.1)
      (count_in_past env w s.now (process_potential_incident env s o c).1 later a.1)
count_in_bound env w lo c (collection e ∷ later) a h =
    count_in_bound env w lo (collect e c).1 later a h

-- From a new collector, with requests whose times do not run backwards and collections at any
-- points between them: no window of 60 seconds, wherever it starts, sees more snapshots than
-- `max_per_period`, failed collections of data and upgrades included in the run.
pub emissions_in_window :
    (env : Environment) (max_per_period max_same_error w : ℕ) (events : List Event)
    → Ascending 0 events
    → count_in w (emissions env (create max_per_period max_same_error) events) ≤ max_per_period
unfolding create
emissions_in_window env max_per_period max_same_error w events a =
    omega
      (arith, count_in_bound env w 0 (create max_per_period max_same_error) events a (omega arith))

bound_of_step :
    (other : String) (w : ℕ) (hash : String) (now : ℕ) (r : Option ℕ) (l m : Limiter)
    (later : List Emission)
    → Outcome hash now l (is_some r) m
    → IsLimiter l
    → remembered_of other w l ≤ l.max_same_error
    → (remembered_of other w m ≤ m.max_same_error
        → count_of other w later + remembered_of other w m ≤ m.max_same_error)
    → (w + period_ms < now → count_in w later ≡ 0)
    → count_of other w (noted now hash r later) + remembered_of other w l ≤ l.max_same_error
unfolding noted
bound_of_step other w hash now none l m later out i h ih past = ground (
  arith,
  Outcome-limits hash now l false m out,
  Outcome-remembered_of other w hash now l false m out i,
  ih,
  past,
  count_of_in other w later,
)
bound_of_step other w hash now (some a) l m later out i h ih past = ground (
  arith,
  string_test.same_iff hash other,
  Outcome-limits hash now l true m out,
  Outcome-remembered_of other w hash now l true m out i,
  ih,
  past,
  count_of_in other w later,
)

count_of_bound :
    (env : Environment) (other : String) (w lo : ℕ) (c : Collector) (events : List Event)
    → Ascending lo events
    → IsLimiter c.limiter
    → remembered_of other w c.limiter ≤ c.limiter.max_same_error
    → count_of other w (emissions env c events) + remembered_of other w c.limiter
      ≤ c.limiter.max_same_error
unfolding emissions step collect
count_of_bound env other w lo c [] a i h = omega (arith, h)
count_of_bound env other w lo c (request s o ∷ later) a i h =
    bound_of_step other w (hash_of env s o) s.now (process_potential_incident env s o c).0 c.limiter
      (process_potential_incident env s o c).1.limiter _ (process-Outcome env s o c) i h
      (count_of_bound env other w s.now (process_potential_incident env s o c).1 later a.1
        (Outcome-IsLimiter _ _ _ _ _ (process-Outcome env s o c) i))
      (count_in_past env w s.now (process_potential_incident env s o c).1 later a.1)
count_of_bound env other w lo c (collection e ∷ later) a i h =
    count_of_bound env other w lo (collect e c).1 later a (i.0, tt) h

-- Under the same conditions, no window of 60 seconds sees more snapshots of one error hash than
-- `max_same_error`.
pub emissions_of_hash :
    (env : Environment) (max_per_period max_same_error w : ℕ) (hash : String) (events : List Event)
    → Ascending 0 events
    → count_of hash w (emissions env (create max_per_period max_same_error) events) ≤ max_same_error
unfolding create lookup
emissions_of_hash env max_per_period max_same_error w hash events a = omega (
  arith,
  count_of_bound env hash w 0 (create max_per_period max_same_error) events a (tt, tt)
      (ground arith),
)
