-- ===== src/LogBatching/Size/Bounds.antt =====
-- The size estimate of exporter/otlp/aws/logs/aws-cw-otlp-batch-log-record-processor.ts always ends,
-- and does not fall short.
use native.Mathlib.Decide.{dec_le}
use native.Mathlib.Nat.{le_refl}
use aws_otel_js_instrumentat.Prelude.{
  ℕ, zero, suc, ◌+◌, ◌*◌, ◌≤◌, ◌<◌, Bool, true, false, Option, none, some, List, [], ◌∷◌, ltb,
  if◌then◌else◌, ◌≡◌, refl, All, All-append, length, arith,
}
use aws_otel_js_instrumentat.LogBatching.Size.{
  AnyValue, nothing, scalar, bytes, ref, Object, array, any_value_map, Heap, LogRecord,
  estimate_utf8_size, Walk, push_items, push_fields, enter, visit, pass, rounds, estimate_log_size,
}

-- The length of the UTF-8 encoding.
abbrev pub utf8_size : List ℕ → ℕ
utf8_size [] = 0
utf8_size (c ∷ s) =
    (if ltb c 128 then 1 else if ltb c 2048 then 2 else if ltb c 65536 then 3 else 4) + utf8_size s

-- The estimate never falls below the length of the UTF-8 encoding, and is at most four bytes for
-- each code point.
pub estimate_utf8_size_bounds :
    (s : List ℕ) → (utf8_size s ≤ estimate_utf8_size s) × (estimate_utf8_size s ≤ 4 * length s)
unfolding estimate_utf8_size
estimate_utf8_size_bounds [] = ground arith
estimate_utf8_size_bounds (c ∷ s) = ground (arith, estimate_utf8_size_bounds s)

abbrev Deep : ℕ → List (AnyValue × ℕ) → Type 0
Deep d queue = All (λ entry. d ≤ entry.1) queue

push_items-Deep :
    (d depth : ℕ) (vs : List AnyValue) → d ≤ depth → Deep (suc d) (push_items vs depth)
unfolding push_items
push_items-Deep d depth [] h = tt
push_items-Deep d depth (v ∷ vs) h = (omega arith, push_items-Deep d depth vs h)

push_fields-Deep :
    (d depth : ℕ) (fs : List (List ℕ × AnyValue)) → d ≤ depth → Deep (suc d) (push_fields fs depth)
unfolding push_fields
push_fields-Deep d depth [] h = tt
push_fields-Deep d depth ((k, v) ∷ fs) h = (omega arith, push_fields-Deep d depth fs h)

enter-Deep :
    (o : Object) (d depth : ℕ) (w : Walk)
    → d ≤ depth
    → Deep (suc d) w.new_queue
    → Deep (suc d) (enter o depth w).new_queue
unfolding enter
enter-Deep (array vs) d depth w h k = All-append _ w.new_queue _ k (push_items-Deep d depth vs h)
enter-Deep (any_value_map fs) d depth w h k =
    All-append _ w.new_queue _ k (push_fields-Deep d depth fs h)

visit-Deep :
    (heap : Heap) (m : ℕ) (v : AnyValue) (d depth : ℕ) (w : Walk)
    → d ≤ depth
    → Deep (suc d) w.new_queue
    → Deep (suc d) (visit heap m v depth w).new_queue
unfolding visit
visit-Deep heap m nothing d depth w h k = k
visit-Deep heap m (scalar s) d depth w h k = k
visit-Deep heap m (bytes n) d depth w h k = k
visit-Deep heap m (ref a) d depth w h k =
    ground (arith, enter-Deep (heap a) d depth (record w { visited = a ∷ w.visited }) h k)

pass-Deep :
    (heap : Heap) (m d : ℕ) (queue : List (AnyValue × ℕ)) (w : Walk)
    → Deep d queue
    → Deep (suc d) w.new_queue
    → Deep (suc d) (pass heap m queue w).1.new_queue
unfolding pass
pass-Deep heap m d [] w h k = k
pass-Deep heap m d ((v, depth) ∷ queue) w h k = ground (
  arith,
  pass-Deep heap m d queue (visit heap m v depth w) h.1 (visit-Deep heap m v d depth w h.0 k),
)

-- Below the depth limit nothing is pushed.
visit_below :
    (heap : Heap) (m : ℕ) (v : AnyValue) (depth : ℕ) (w : Walk)
    → m < depth
    → (visit heap m v depth w).new_queue ≡ w.new_queue
unfolding visit
visit_below heap m nothing depth w h = refl
visit_below heap m (scalar s) depth w h = refl
visit_below heap m (bytes n) depth w h = refl
visit_below heap m (ref a) depth w h = ground arith

pass_below :
    (heap : Heap) (m d : ℕ) (queue : List (AnyValue × ℕ)) (w : Walk)
    → m < d
    → Deep d queue
    → (pass heap m queue w).1.new_queue ≡ w.new_queue
unfolding pass
pass_below heap m d [] w h k = refl
pass_below heap m d ((v, depth) ∷ queue) w h k =
    ground (
      arith,
      pass_below heap m d queue (visit heap m v depth w) h k.1,
      visit_below heap m v depth w,
    )

pass_grows :
    (heap : Heap) (m : ℕ) (queue : List (AnyValue × ℕ)) (w : Walk)
    → w.size ≤ (pass heap m queue w).1.size
unfolding pass
pass_grows heap m [] w = omega arith
pass_grows heap m ((v, depth) ∷ queue) w =
    ground (arith, pass_grows heap m queue (visit heap m v depth w), visit_grows v)
  where
    visit_grows : (v : AnyValue) → w.size ≤ (visit heap m v depth w).size
    visit_grows nothing = unfold visit in omega arith
    visit_grows (scalar s) = unfold visit in omega arith
    visit_grows (bytes n) = unfold visit in omega arith
    visit_grows (ref a) = unfold visit enter in ground arith

abbrev Total : ℕ → Option ℕ → Type 0
Total least none = ⊥
Total least (some n) = least ≤ n

Total-if :
    (stopped : Bool) (least n : ℕ) (o : Option ℕ)
    → least ≤ n
    → Total n o
    → Total least (if stopped then some n else o)
Total-if true least n o h t = h
Total-if false least n none h t = t
Total-if false least n (some k) h t = omega arith

rounds-Total :
    (fuel m d : ℕ) (heap : Heap) (queue : List (AnyValue × ℕ)) (size : ℕ) (visited : List ℕ)
    → Deep d queue
    → d ≤ m + 1
    → m + 2 ≤ d + fuel
    → Total size (rounds fuel heap m queue size visited)
unfolding rounds
rounds-Total fuel m d heap [] size visited h k l = omega arith
rounds-Total zero m d heap (entry ∷ queue) size visited h k l = absurd (omega arith)
rounds-Total (suc fuel) m d heap (entry ∷ queue) size visited h k l =
    let start : Walk = record { size = size; visited = visited; new_queue = [] } in
    let next : Walk = (pass heap m (entry ∷ queue) start).1 in
    let later : Total next.size (rounds fuel heap m next.new_queue next.size next.visited) =
      elim (dec_le d m) [
        | yes deeper ↦
            rounds-Total fuel m (suc d) heap next.new_queue next.size next.visited
              (pass-Deep heap m d (entry ∷ queue) start h tt) (omega arith) (omega arith)
        | no at_limit ↦
            rw (pass_below heap m d (entry ∷ queue) start (omega arith) h) (le_refl next.size)
      ] in
    Total-if (pass heap m (entry ∷ queue) start).0 size next.size
      (rounds fuel heap m next.new_queue next.size next.visited)
      (pass_grows heap m (entry ∷ queue) start) later

-- The estimate ends for every heap, shared or cyclic, and counts at least the base size.
pub estimate_log_size_total :
    (heap : Heap) (max_depth : ℕ) (log : LogRecord)
    → (n : ℕ) × (estimate_log_size heap max_depth log ≡ some n) × (2000 ≤ n)
estimate_log_size_total heap max_depth log = total (estimate_log_size heap max_depth log) (
    unfold estimate_log_size in
    rounds-Total (suc (suc (suc max_depth))) (suc max_depth) 0 heap
      ((log.body, 1) ∷ (log.attributes, 0) ∷ []) 2000 [] (omega arith, (omega arith, tt))
      (omega arith) (omega arith))
  where
    total : (o : Option ℕ) → Total 2000 o → (n : ℕ) × (o ≡ some n) × (2000 ≤ n)
    total none t = absurd t
    total (some n) t = (n, refl, t)
