-- ===== src/CloudWatchLogs.antt =====
-- The CloudWatch Logs client of the EMF exporter
-- (exporter/aws/metrics/cloudwatch-logs-client.ts).
mod Tests
pub mod Batch
pub mod Client
pub mod Sorting
pub mod Limits
pub mod Delivery
pub mod Conservation
