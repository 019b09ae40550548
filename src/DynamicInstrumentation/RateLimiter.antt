-- ===== src/DynamicInstrumentation/RateLimiter.antt =====
-- dynamic-instrumentation/rate-limiter.ts: the fixed-window limiter of captures. Times are whole
-- milliseconds since the epoch.
pub mod Windows
use aws_otel_js_instrumentat.Prelude.{
  ℕ, ◌+◌, ◌*◌, ◌/◌, max, Bool, true, false, List, [], ◌∷◌, leb, nat_beq, if◌then◌else◌,
}

pub record CaptureRateLimiter : Type 0 where
  pub max_captures_per_second : ℕ
  pub window_start : ℕ
  pub count : ℕ

unfoldable pub create : ℕ → CaptureRateLimiter
create max_captures = record {
  max_captures_per_second = max 1 max_captures;
  window_start = 0;
  count = 0;
}

-- The reset of `tryAcquire` when the second changes.
roll : CaptureRateLimiter → ℕ → CaptureRateLimiter
roll l window_start_ms =
    if nat_beq window_start_ms l.window_start
    then l
    else record l { window_start = window_start_ms; count = 0 }

consume : CaptureRateLimiter → Bool × CaptureRateLimiter
consume l =
    if leb l.max_captures_per_second l.count
    then (false, l)
    else (true, record l { count = l.count + 1 })

unfoldable pub try_acquire : CaptureRateLimiter → ℕ → Bool × CaptureRateLimiter
unfolding roll consume
try_acquire l now = consume (roll l (now / 1000 * 1000))

-- The answers to calls at the given times, in turn.
pub answers : CaptureRateLimiter → List ℕ → List Bool
answers l [] = []
answers l (now ∷ later) = (try_acquire l now).0 ∷ answers (try_acquire l now).1 later
