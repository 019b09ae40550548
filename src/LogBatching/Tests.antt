-- ===== src/LogBatching/Tests.antt =====
-- Runs of the processor of exporter/otlp/aws/logs/aws-cw-otlp-batch-log-record-processor.ts on
-- small inputs.
use aws_otel_js_instrumentat.Prelude.{ℕ, ◌≤◌, some, List, [], ◌∷◌, ◌≡◌, arith}
use aws_otel_js_instrumentat.LogBatching.Size.{
  nothing, scalar, ref, array, Heap, LogRecord, estimate_log_size,
}
use aws_otel_js_instrumentat.LogBatching.Size.Bounds.{estimate_log_size_total}
use aws_otel_js_instrumentat.LogBatching.Processor.{
  Processor, Exporter, failed, timed_out, flush_all,
}
use aws_otel_js_instrumentat.LogBatching.Processor.Exports.{Exports, flush_all-Exports}

-- "éa" and a character outside the first plane.
abbrev text : List ℕ
text = 233 ∷ 97 ∷ 128512 ∷ []

-- Object 0 is an array that holds itself.
abbrev heap : Heap
heap address = array (ref 0 ∷ scalar (97 ∷ []) ∷ [])

abbrev log : LogRecord
log = record { body = ref 0; attributes = nothing }

estimate_log_size_total_example : (n : ℕ) × (estimate_log_size heap 3 log ≡ some n) × (2000 ≤ n)
estimate_log_size_total_example = estimate_log_size_total heap 3 log

abbrev sizes : List ℕ
sizes = 500000 ∷ 600000 ∷ 2000000 ∷ 10 ∷ 20 ∷ []

abbrev own_size : ℕ → ℕ
own_size n = n

abbrev exporter : Exporter
exporter = record { results = failed ∷ timed_out ∷ []; exported = []; errors = 0 }

abbrev processor : Processor
processor = record {
  finished_log_records = log ∷ log ∷ log ∷ [];
  max_export_batch_size = 2;
  exporter = exporter;
}

flush_all-Exports_example :
    (p' : Processor) × (flush_all heap processor ≡ some p')
    × (p'.finished_log_records ≡ [])
    × Exports heap 2 (log ∷ log ∷ log ∷ []) exporter p'.exporter
flush_all-Exports_example = flush_all-Exports heap processor (omega arith)
