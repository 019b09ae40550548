-- ===== src/Incidents.antt =====
-- Incident snapshots of the service-events subsystem
-- (serviceevents/collectors/incident-snapshot-collector.ts, serviceevents/utils/data-sanitizer.ts).
mod Tests
pub mod Snapshot
pub mod Limiter
pub mod Pending
pub mod Collector
