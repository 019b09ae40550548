-- ===== src/PresignedUrls.antt =====
-- Presigned AWS URLs and the calls of S3 made with them (presigned-aws-url.ts,
-- presigned-aws-url-parser.ts, s3-presigned-url-attributor.ts, presigned-url-attributor.ts).
mod Tests
pub mod Parser
pub mod Endpoint
pub mod Operation
pub mod S3
