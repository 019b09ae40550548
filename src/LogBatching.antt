-- ===== src/LogBatching.antt =====
-- The batch processor of CloudWatch OTLP log records
-- (exporter/otlp/aws/logs/aws-cw-otlp-batch-log-record-processor.ts).
mod Tests
pub mod Size
pub mod Split
pub mod Processor
