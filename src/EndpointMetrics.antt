-- ===== src/EndpointMetrics.antt =====
-- Endpoint metrics of the service-events subsystem (serviceevents/utils/seh-histogram.ts,
-- serviceevents/collectors/endpoint-collector.ts).
mod Tests
pub mod Histogram
pub mod Endpoints
pub mod Export
