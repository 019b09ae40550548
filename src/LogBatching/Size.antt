-- ===== src/LogBatching/Size.antt =====
-- The size estimate of exporter/otlp/aws/logs/aws-cw-otlp-batch-log-record-processor.ts. A text is
-- the list of its code points, a number or boolean is given by its text. Arrays and maps live on a
-- heap, so that a value may be shared or cyclic; depths are one above the source's, which starts the
-- attributes at -1.
pub mod Bounds
use aws_otel_js_instrumentat.Prelude.{
  ℕ, zero, suc, ◌+◌, ◌*◌, Bool, true, false, not, ◌&&◌, ◌||◌, Option, none, some, List, [], ◌∷◌,
  ◌++◌, leb, ltb, if◌then◌else◌, nat_beq,
}

pub data AnyValue : Type 0 where
  nothing : AnyValue
  scalar : List ℕ → AnyValue
  bytes : (byte_length : ℕ) → AnyValue
  ref : (address : ℕ) → AnyValue

pub data Object : Type 0 where
  array : List AnyValue → Object
  any_value_map : List (List ℕ × AnyValue) → Object

abbrev pub Heap : Type 0
Heap = ℕ → Object

pub record LogRecord : Type 0 where
  pub body : AnyValue
  pub attributes : AnyValue

abbrev pub base_log_buffer_byte_size : ℕ
base_log_buffer_byte_size = 2000

abbrev pub max_log_request_byte_size : ℕ
max_log_request_byte_size = 1048576

unfoldable pub estimate_utf8_size : List ℕ → ℕ
estimate_utf8_size [] = 0
estimate_utf8_size (c ∷ s) = (if ltb c 128 then 1 else 4) + estimate_utf8_size s

-- What one pass over the queue carries: the size so far, the objects visited, the next queue.
pub record Walk : Type 0 where
  pub size : ℕ
  pub visited : List ℕ
  pub new_queue : List (AnyValue × ℕ)

contains : List ℕ → ℕ → Bool
contains [] a = false
contains (b ∷ bs) a = nat_beq b a || contains bs a

push_items : List AnyValue → ℕ → List (AnyValue × ℕ)
push_items [] depth = []
push_items (v ∷ vs) depth = (v, suc depth) ∷ push_items vs depth

push_fields : List (List ℕ × AnyValue) → ℕ → List (AnyValue × ℕ)
push_fields [] depth = []
push_fields ((key, v) ∷ fields) depth = (v, suc depth) ∷ push_fields fields depth

keys_size : List (List ℕ × AnyValue) → ℕ
keys_size [] = 0
keys_size ((key, v) ∷ fields) = estimate_utf8_size key + keys_size fields

enter : Object → ℕ → Walk → Walk
enter (array items) depth w = record w { new_queue = w.new_queue ++ push_items items depth }
enter (any_value_map fields) depth w = record w {
  size = w.size + keys_size fields;
  new_queue = w.new_queue ++ push_fields fields depth;
}

-- One element of the queue. `max_depth` is one above the source's, like the depths.
visit : Heap → ℕ → AnyValue → ℕ → Walk → Walk
visit heap max_depth nothing depth w = w
visit heap max_depth (scalar s) depth w = record w { size = w.size + estimate_utf8_size s }
visit heap max_depth (bytes n) depth w = record w { size = w.size + n }
visit heap max_depth (ref a) depth w =
    if leb depth max_depth && not (contains w.visited a)
    then enter (heap a) depth (record w { visited = a ∷ w.visited })
    else w

-- One pass over the queue. True when it stopped early, at the limit.
pass : Heap → ℕ → List (AnyValue × ℕ) → Walk → Bool × Walk
pass heap max_depth [] w = (false, w)
pass heap max_depth ((v, depth) ∷ queue) w =
    let rest = pass heap max_depth queue (visit heap max_depth v depth w) in
    if leb max_log_request_byte_size w.size then (true, w) else rest

-- The loop over queues; `none` when the fuel runs out.
rounds : ℕ → Heap → ℕ → List (AnyValue × ℕ) → ℕ → List ℕ → Option ℕ
rounds fuel heap max_depth [] size visited = some size
rounds zero heap max_depth (entry ∷ queue) size visited = none
rounds (suc fuel) heap max_depth (entry ∷ queue) size visited =
    let (stopped, w) =
      pass heap max_depth (entry ∷ queue)
        (record { size = size; visited = visited; new_queue = [] }) in
    let rest = rounds fuel heap max_depth w.new_queue w.size w.visited in
    if stopped then some w.size else rest

-- Each pass goes one level down, so `max_depth` + 2 passes end the loop.
unfoldable pub estimate_log_size : Heap → ℕ → LogRecord → Option ℕ
unfolding rounds pass visit enter contains push_items push_fields keys_size
estimate_log_size heap max_depth log =
    rounds (suc (suc (suc max_depth))) heap (suc max_depth)
      ((log.body, 1) ∷ (log.attributes, 0) ∷ []) base_log_buffer_byte_size []
