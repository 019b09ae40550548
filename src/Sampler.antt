-- ===== src/Sampler.antt =====
-- The X-Ray remote sampler (sampler/).
mod Tests
pub mod Reservoir
pub mod Applier
pub mod Matching
pub mod Rules
pub mod Request
