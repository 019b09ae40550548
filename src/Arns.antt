-- ===== src/Arns.antt =====
-- Names of AWS resources in ARNs and queue URLs (regional-resource-arn-parser.ts, sqs-url-parser.ts).
mod Tests
pub mod Arn
pub mod SqsUrl
