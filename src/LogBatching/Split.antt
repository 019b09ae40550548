-- ===== src/LogBatching/Split.antt =====
-- The size-based splitting of exporter/otlp/aws/logs/aws-cw-otlp-batch-log-record-processor.ts, the
-- loop that `_flushAll` and `_exportOneBatch` share, over any records and size estimate.
use aws_otel_js_instrumentat.Prelude.{
  ℕ, ◌+◌, ◌≤◌, not, ◌&&◌, List, [], ◌∷◌, ◌++◌, is_empty, length, concat, ltb, if◌then◌else◌, ◌≡◌,
  refl, sym, ap, ◌∙◌, ◌⊎◌, inl, inr, All, All-append, arith, append-nil, append_assoc,
  length-append,
}
use aws_otel_js_instrumentat.LogBatching.Size.{max_log_request_byte_size}

-- The loop's variables.
pub record Batching {ℓ} (R : Type ℓ) : Type ℓ where
  pub sub_batches : List (List R)
  pub batch : List R
  pub batch_data_size : ℕ

module _ {R : Type 0} (size : R → ℕ) where
  pub close_if_full : Batching R → R → Batching R
  close_if_full s log =
      if not (is_empty s.batch) && ltb max_log_request_byte_size (s.batch_data_size + size log)
      then record { sub_batches = s.sub_batches ++ s.batch ∷ []; batch = []; batch_data_size = 0 }
      else s

  pub add_log : Batching R → R → Batching R
  add_log s log = record s {
    batch_data_size = s.batch_data_size + size log;
    batch = s.batch ++ log ∷ [];
  }

  pub batching : Batching R → List R → Batching R
  batching s [] = s
  batching s (log ∷ logs) = batching (add_log (close_if_full s log) log) logs

  pub finish : Batching R → List (List R)
  finish s = if is_empty s.batch then s.sub_batches else s.sub_batches ++ s.batch ∷ []

  start : Batching R
  start = record { sub_batches = []; batch = []; batch_data_size = 0 }

  unfoldable pub split_by_size : List R → List (List R)
  unfolding batching close_if_full add_log finish start
  split_by_size logs = finish (batching start logs)

  abbrev pub total : List R → ℕ
  total [] = 0
  total (log ∷ logs) = size log + total logs

  -- At most 1 MiB by the estimate, or a single record.
  abbrev pub Fits : List R → Type 0
  Fits logs = (1 ≤ length logs) × ((total logs ≤ 1048576) ⊎ (length logs ≡ 1))

  total-append : (xs ys : List R) → total (xs ++ ys) ≡ total xs + total ys
  total-append [] ys = omega arith
  total-append (x ∷ xs) ys = omega (arith, total-append xs ys)

  record IsBatching (s : Batching R) : Type 0 where
    counted : s.batch_data_size ≡ total s.batch
    closed : All Fits s.sub_batches
    open_batch : (s.batch ≡ []) ⊎ Fits s.batch

  so_far : Batching R → List R
  so_far s = concat s.sub_batches ++ s.batch

  concat-concat : (xss : List (List R)) (xs : List R) → concat (xss ++ xs ∷ []) ≡ concat xss ++ xs
  concat-concat [] xs = append-nil xs
  concat-concat (ys ∷ xss) xs =
      ap (◌++◌ ys) (concat-concat xss xs) ∙ sym (append_assoc ys (concat xss) xs)

  close_if_full-so_far : (s : Batching R) (log : R) → so_far (close_if_full s log) ≡ so_far s
  unfolding so_far close_if_full
  close_if_full-so_far s log = ground (
    arith,
    append-nil (concat s.sub_batches ++ s.batch),
    append-nil (concat (s.sub_batches ++ s.batch ∷ [])),
    concat-concat s.sub_batches s.batch,
  )

  add_log-so_far : (s : Batching R) (log : R) → so_far (add_log s log) ≡ so_far s ++ log ∷ []
  unfolding so_far add_log
  add_log-so_far s log = sym (append_assoc (concat s.sub_batches) s.batch (log ∷ []))

  batching-so_far : (s : Batching R) (logs : List R) → so_far (batching s logs) ≡ so_far s ++ logs
  unfolding batching
  batching-so_far s [] = sym (append-nil (so_far s))
  batching-so_far s (log ∷ logs) =
      rw
        (
          batching-so_far (add_log (close_if_full s log) log) logs,
          add_log-so_far (close_if_full s log) log,
          close_if_full-so_far s log,
        )
        (append_assoc (so_far s) (log ∷ []) logs)

  finish-concat : (s : Batching R) → concat (finish s) ≡ so_far s
  unfolding finish so_far
  finish-concat s = by_batch s.batch
    where
      by_batch :
          (b : List R)
          → concat (if is_empty b then s.sub_batches else s.sub_batches ++ b ∷ [])
            ≡ concat s.sub_batches ++ b
      by_batch [] = sym (append-nil (concat s.sub_batches))
      by_batch (x ∷ b) = concat-concat s.sub_batches (x ∷ b)

  -- The sub-batches, joined, are the records in their order: nothing is lost, doubled or reordered.
  pub concat-split_by_size : (logs : List R) → concat (split_by_size logs) ≡ logs
  unfolding split_by_size so_far start
  concat-split_by_size logs = finish-concat (batching start logs) ∙ batching-so_far start logs

  close_if_full-IsBatching :
      (s : Batching R) (log : R)
      → IsBatching s
      → IsBatching (close_if_full s log)
        × (((close_if_full s log).batch ≡ [])
            ⊎ (total (close_if_full s log).batch + size log ≤ 1048576))
  unfolding close_if_full
  close_if_full-IsBatching s log v = ground (
    arith,
    λ (fits : Fits s.batch). All-append Fits s.sub_batches (s.batch ∷ []) v.closed (fits, tt),
  )

  add_log-IsBatching :
      (s : Batching R) (log : R)
      → IsBatching s
      → (s.batch ≡ []) ⊎ (total s.batch + size log ≤ 1048576)
      → IsBatching (add_log s log)
  unfolding add_log
  add_log-IsBatching s log v room = record {
    counted = omega (arith, total-append s.batch (log ∷ []), v.counted);
    closed = v.closed;
    open_batch = inr (fits room);
  }
    where
      fits : (s.batch ≡ []) ⊎ (total s.batch + size log ≤ 1048576) → Fits (s.batch ++ log ∷ [])
      fits (inl e) =
          let n = ap length e in
          (
            omega (arith, length-append s.batch (log ∷ [])),
            inr (omega (arith, length-append s.batch (log ∷ []), n)),
          )
      fits (inr r) = (
        omega (arith, length-append s.batch (log ∷ [])),
        inl (omega (arith, total-append s.batch (log ∷ []))),
      )

  batching-IsBatching :
      (s : Batching R) (logs : List R) → IsBatching s → IsBatching (batching s logs)
  unfolding batching
  batching-IsBatching s [] v = v
  batching-IsBatching s (log ∷ logs) v =
      let (closed, room) = close_if_full-IsBatching s log v in
      batching-IsBatching (add_log (close_if_full s log) log) logs
        (add_log-IsBatching (close_if_full s log) log closed room)

  finish-Fits : (s : Batching R) → IsBatching s → All Fits (finish s)
  unfolding finish
  finish-Fits s v = by_batch s.batch v.open_batch
    where
      by_batch :
          (b : List R)
          → (b ≡ []) ⊎ Fits b
          → All Fits (if is_empty b then s.sub_batches else s.sub_batches ++ b ∷ [])
      by_batch [] h = v.closed
      by_batch (x ∷ b) (inl e) = cc
      by_batch (x ∷ b) (inr h) = All-append Fits s.sub_batches ((x ∷ b) ∷ []) v.closed (h, tt)

  -- Every sub-batch holds a record, and is at most 1 MiB by the estimate unless it is a single one.
  pub split_by_size-Fits : (logs : List R) → All Fits (split_by_size logs)
  unfolding split_by_size start
  split_by_size-Fits logs = finish-Fits (batching start logs) (
      batching-IsBatching start logs
        (record { counted = refl; closed = tt; open_batch = inl refl }))
