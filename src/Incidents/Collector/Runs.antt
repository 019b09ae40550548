-- ===== src/Incidents/Collector/Runs.antt =====
-- Runs of serviceevents/collectors/incident-snapshot-collector.ts: requests and collections, in any
-- order.
use aws_otel_js_instrumentat.Prelude.{ℕ, Option, List, [], ◌∷◌, nat_test, string_test}
use aws_otel_js_instrumentat.Incidents.Limiter.{Limiter}
use aws_otel_js_instrumentat.Incidents.Pending.{Collector}
use aws_otel_js_instrumentat.Incidents.Collector.{Environment}
use aws_otel_js_instrumentat.Incidents.Collector.Coherence.{IsTracked}
use aws_otel_js_instrumentat.Incidents.Collector.Emissions.{Event, step}

abbrev IsTrackedAfter : Option ℕ × Collector → Type 0
IsTrackedAfter r = IsTracked r.1

unfoldable pub run : Environment → Collector → List Event → Collector
run env c [] = c
run env c (event ∷ later) = run env (step env c event) later
