-- ===== src/DynamicInstrumentation.antt =====
-- The dynamic-instrumentation subsystem
-- (aws-distro-opentelemetry-node-autoinstrumentation/src/dynamic-instrumentation).
mod Tests
pub mod RateLimiter
pub mod State
pub mod Configuration
pub mod Registry
pub mod Reporter
