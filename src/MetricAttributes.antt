-- ===== src/MetricAttributes.antt =====
-- aws-metric-attribute-generator.ts: the attributes of the service and dependency metrics of a span.
mod Tests
pub mod Callee
pub mod Remote
pub mod Escape
pub mod AgentCore
pub mod Resource
pub mod Generator
pub mod Exporter
pub mod Processor
