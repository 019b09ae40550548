-- ===== src/Arns/Tests.antt =====
-- A queue URL read back.
use aws_otel_js_instrumentat.Arns.SqsUrl
