-- ===== src/Spans.antt =====
-- Spans: what the processors and the generator of metric attributes read of them
-- (aws-span-processing-util.ts, attribute-propagating-span-processor.ts).
mod Tests
pub mod Model
pub mod Sample
pub mod Kinds
pub mod Operation
pub mod Paths
pub mod Propagation
pub mod GenAi
pub mod Recording
