-- ===== src/LogBatching/Processor.antt =====
-- The processor of exporter/otlp/aws/logs/aws-cw-otlp-batch-log-record-processor.ts. The exporter's
-- results are a list that the environment chooses; past its end an export succeeds. The base class's
-- timers and its `_extractBatch` are not under this repository: the extracted records are an argument.
pub mod Exports
use aws_otel_js_instrumentat.Prelude.{
  ℕ, zero, suc, ◌+◌, Bool, true, false, Option, none, some, List, [], ◌∷◌, ◌++◌, is_empty, length,
  take, drop, leb, if◌then◌else◌,
}
use aws_otel_js_instrumentat.LogBatching.Size.{Heap, LogRecord, estimate_log_size}
use aws_otel_js_instrumentat.LogBatching.Split.{split_by_size}

pub data ExportResult : Type 0 where
  succeeded failed timed_out : ExportResult

pub record Exporter : Type 0 where
  pub results : List ExportResult
  pub exported : List (List LogRecord)
  pub errors : ℕ

next_result : List ExportResult → ExportResult
next_result [] = succeeded
next_result (r ∷ _) = r

later_results : List ExportResult → List ExportResult
later_results [] = []
later_results (_ ∷ rs) = rs

-- What the global error handler is called with: nothing, or one error.
errors_of : ExportResult → ℕ
errors_of succeeded = 0
errors_of failed = 1
errors_of timed_out = 1

-- `_exportBatch` and its caller's handler.
unfoldable pub export_batch : Exporter → List LogRecord → Exporter
unfolding next_result later_results errors_of
export_batch x batch = record {
  results = later_results x.results;
  exported = x.exported ++ batch ∷ [];
  errors = x.errors + errors_of (next_result x.results);
}

unfoldable pub export_all : Exporter → List (List LogRecord) → Exporter
export_all x [] = x
export_all x (batch ∷ batches) = export_all (export_batch x batch) batches

size_or : ℕ → Option ℕ → ℕ
size_or d none = d
size_or d (some n) = n

unfoldable pub log_size : Heap → LogRecord → ℕ
unfolding size_or
log_size heap log = size_or 0 (estimate_log_size heap 3 log)

pub record Processor : Type 0 where
  pub finished_log_records : List LogRecord
  pub max_export_batch_size : ℕ
  pub exporter : Exporter

-- `while (toFlush.length > 0)`; `none` when the fuel runs out.
unfoldable pub flush_chunks : Heap → ℕ → ℕ → List LogRecord → Exporter → Option Exporter
flush_chunks heap most fuel [] x = some x
flush_chunks heap most zero (log ∷ logs) x = none
flush_chunks heap most (suc fuel) (log ∷ logs) x =
    let all_at_once = export_all x (split_by_size (log_size heap) (log ∷ logs)) in
    let chunk = take most (log ∷ logs) in
    let rest =
      flush_chunks heap most fuel (drop most (log ∷ logs))
        (export_all x (split_by_size (log_size heap) chunk)) in
    if leb (length (log ∷ logs)) most then some all_at_once else rest

flushed : Processor → Option Exporter → Option Processor
flushed p none = none
flushed p (some x) = some (record p { finished_log_records = []; exporter = x })

-- A round takes at least one record when the maximum is positive.
unfoldable pub flush_all : Heap → Processor → Option Processor
unfolding flushed
flush_all heap p = flushed p (
    flush_chunks heap p.max_export_batch_size (length p.finished_log_records) p.finished_log_records
      p.exporter)

-- `_exportOneBatch`, from what `_extractBatch` returned.
unfoldable pub export_one_batch : Heap → Option (List LogRecord) → Exporter → Exporter
export_one_batch heap none x = x
export_one_batch heap (some logs) x = export_all x (split_by_size (log_size heap) logs)
