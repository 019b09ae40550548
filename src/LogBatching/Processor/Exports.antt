-- ===== src/LogBatching/Processor/Exports.antt =====
-- What the processor of exporter/otlp/aws/logs/aws-cw-otlp-batch-log-record-processor.ts exports.
use aws_otel_js_instrumentat.Prelude.{
  ℕ, zero, suc, ◌≤◌, ◌<◌, some, List, [], ◌∷◌, ◌++◌, length, take, drop, leb, concat, ◌≡◌, refl,
  sym, ap, ◌∙◌, All, All-append, arith, append-nil, append_assoc, length-append, subst,
  take-append-drop, length-take, length-drop, Bool-cases, inl, inr,
}
use aws_otel_js_instrumentat.LogBatching.Size.{Heap, LogRecord}
use aws_otel_js_instrumentat.LogBatching.Split.{
  split_by_size, concat-split_by_size, split_by_size-Fits, Fits,
}
use aws_otel_js_instrumentat.LogBatching.Processor.{
  Exporter, Processor, export_batch, export_all, log_size, flush_chunks, flush_all,
  export_one_batch,
}

-- The exports of `x'` are those of `x` and then the records `logs` in order, cut into batches of at
-- most `most` records that fit a request.
pub record Exports (heap : Heap) (most : ℕ) (logs : List LogRecord) (x x' : Exporter) : Type 0 where
  pub batches : List (List LogRecord)
  pub appended : x'.exported ≡ x.exported ++ batches
  pub complete : concat batches ≡ logs
  pub fitting : All (Fits (log_size heap)) batches
  pub short : All (λ b. length b ≤ most) batches

export_all-exported :
    (x : Exporter) (batches : List (List LogRecord))
    → (export_all x batches).exported ≡ x.exported ++ batches
unfolding export_all export_batch
export_all-exported x [] = sym (append-nil x.exported)
export_all-exported x (b ∷ batches) =
    export_all-exported (export_batch x b) batches ∙ append_assoc x.exported (b ∷ []) batches

shorter :
    (most : ℕ) (batches : List (List LogRecord))
    → length (concat batches) ≤ most
    → All (λ b. length b ≤ most) batches
shorter most [] h = tt
shorter most (b ∷ batches) h =
    let n = length-append b (concat batches) in (omega arith, shorter most batches (omega arith))

split-Exports :
    (heap : Heap) (most : ℕ) (logs : List LogRecord) (x : Exporter)
    → length logs ≤ most
    → Exports heap most logs x (export_all x (split_by_size (log_size heap) logs))
split-Exports heap most logs x h = record {
  batches = split_by_size (log_size heap) logs;
  appended = export_all-exported x (split_by_size (log_size heap) logs);
  complete = concat-split_by_size (log_size heap) logs;
  fitting = split_by_size-Fits (log_size heap) logs;
  short =
      shorter most (split_by_size (log_size heap) logs)
        (rw (concat-split_by_size (log_size heap) logs) h);
}

concat-append : (xss yss : List (List LogRecord)) → concat (xss ++ yss) ≡ concat xss ++ concat yss
concat-append [] yss = refl
concat-append (xs ∷ xss) yss =
    ap (◌++◌ xs) (concat-append xss yss) ∙ sym (append_assoc xs (concat xss) (concat yss))

Exports-trans :
    (heap : Heap) (most : ℕ) (front back : List LogRecord) (x y z : Exporter)
    → Exports heap most front x y
    → Exports heap most back y z
    → Exports heap most (front ++ back) x z
Exports-trans heap most front back x y z p q = record {
  batches = p.batches ++ q.batches;
  appended =
      q.appended
      ∙ ap (λ l. l ++ q.batches) p.appended
      ∙ append_assoc x.exported p.batches q.batches;
  complete = rw (concat-append p.batches q.batches, p.complete, q.complete);
  fitting = All-append _ p.batches q.batches p.fitting q.fitting;
  short = All-append _ p.batches q.batches p.short q.short;
}

flush_chunks-Exports :
    (heap : Heap) (most fuel : ℕ) (logs : List LogRecord) (x : Exporter)
    → 0 < most
    → length logs ≤ fuel
    → (x' : Exporter) × (flush_chunks heap most fuel logs x ≡ some x') × Exports heap most logs x x'
unfolding flush_chunks
flush_chunks-Exports heap most fuel [] x pos enough = (
  x,
  refl,
  record {
    batches = [];
    appended = sym (append-nil x.exported);
    complete = refl;
    fitting = tt;
    short = tt;
  },
)
flush_chunks-Exports heap most zero (log ∷ logs) x pos enough = absurd (omega arith)
flush_chunks-Exports heap most (suc fuel) (log ∷ logs) x pos enough =
    elim (Bool-cases (leb (length (log ∷ logs)) most)) [
      | inl fits ↦ (
        export_all x (split_by_size (log_size heap) (log ∷ logs)),
        rw fits refl,
        split-Exports heap most (log ∷ logs) x (ground arith),
      )
      | inr longer ↦
          let chunk = take most (log ∷ logs) in
          let y = export_all x (split_by_size (log_size heap) chunk) in
          let (x', e, rest) =
            flush_chunks-Exports heap most fuel (drop most (log ∷ logs)) y pos
              (omega (arith, length-drop most (log ∷ logs))) in
          let both =
            Exports-trans heap most chunk (drop most (log ∷ logs)) x y x'
              (split-Exports heap most chunk x (omega (arith, length-take most (log ∷ logs))))
              rest in
          (
            x',
            rw longer e,
            subst (λ l. Exports heap most l x x') (take-append-drop most (log ∷ logs)) both,
          )
    ]

-- With a positive maximum a flush ends, leaves nothing buffered, and has exported every buffered
-- record once, in order, in batches within the maximum and, unless they are single records, within
-- 1 MiB by the estimate, whatever the exporter answered.
pub flush_all-Exports :
    (heap : Heap) (p : Processor)
    → 0 < p.max_export_batch_size
    → (p' : Processor) × (flush_all heap p ≡ some p')
      × (p'.finished_log_records ≡ [])
      × Exports heap p.max_export_batch_size p.finished_log_records p.exporter p'.exporter
unfolding flush_all
flush_all-Exports heap p pos =
    let (x', e, exports) =
      flush_chunks-Exports heap p.max_export_batch_size (length p.finished_log_records)
        p.finished_log_records p.exporter pos (omega arith) in
    (record p { finished_log_records = []; exporter = x' }, rw e, refl, exports)

-- The periodic export sends the extracted records once, in order, in batches that fit a request.
pub export_one_batch-Exports :
    (heap : Heap) (logs : List LogRecord) (x : Exporter)
    → Exports heap (length logs) logs x (export_one_batch heap (some logs) x)
unfolding export_one_batch
export_one_batch-Exports heap logs x = split-Exports heap (length logs) logs x (omega arith)
