-- ===== src/DynamicInstrumentation/RateLimiter/Windows.antt =====
-- What the limiter of dynamic-instrumentation/rate-limiter.ts grants in each one-second window.
use aws_otel_js_instrumentat.Prelude.{
  ℕ, suc, ◌+◌, ◌-◌, ◌*◌, ◌/◌, ◌≤◌, min, max, Bool, List, [], ◌∷◌, ◌&&◌, nat_beq, if◌then◌else◌, ◌≡◌,
  refl, arith,
}
use aws_otel_js_instrumentat.DynamicInstrumentation.RateLimiter.{
  CaptureRateLimiter, create, try_acquire, answers,
}

-- Times that do not run backwards, from a lower bound on.
abbrev pub Ascending : ℕ → List ℕ → Type 0
Ascending lo [] = Unit {0}
Ascending lo (now ∷ later) = (lo ≤ now) × Ascending now later

-- The calls made in the second `w`.
abbrev pub calls_in : ℕ → List ℕ → ℕ
calls_in w [] = 0
calls_in w (now ∷ later) = (if nat_beq (now / 1000) w then 1 else 0) + calls_in w later

-- Those of them that were granted.
abbrev pub granted_in : ℕ → List ℕ → List Bool → ℕ
granted_in w [] _ = 0
granted_in w (now ∷ later) [] = 0
granted_in w (now ∷ later) (ok ∷ oks) =
    (if nat_beq (now / 1000) w && ok then 1 else 0) + granted_in w later oks

abbrev budget : ℕ → CaptureRateLimiter → ℕ
budget w l =
    if nat_beq (w * 1000) l.window_start
    then l.max_captures_per_second - l.count
    else l.max_captures_per_second

calls_in_past :
    (w lo : ℕ) (times : List ℕ) → Ascending lo times → suc w ≤ lo / 1000 → calls_in w times ≡ 0
calls_in_past w lo [] a h = refl
calls_in_past w lo (now ∷ later) a h = ground (arith, calls_in_past w now later a.1)

-- After a call the limiter stands in the second of that call, within its limit.
try_acquire-window_start :
    (l : CaptureRateLimiter) (now : ℕ) → (try_acquire l now).1.window_start ≡ now / 1000 * 1000
unfolding try_acquire
try_acquire-window_start l now = ground arith

try_acquire-max :
    (l : CaptureRateLimiter) (now : ℕ)
    → (try_acquire l now).1.max_captures_per_second ≡ l.max_captures_per_second
unfolding try_acquire
try_acquire-max l now = ground arith

try_acquire-count-le :
    (l : CaptureRateLimiter) (now : ℕ)
    → l.count ≤ l.max_captures_per_second
    → (try_acquire l now).1.count ≤ (try_acquire l now).1.max_captures_per_second
unfolding try_acquire
try_acquire-count-le l now h = ground arith

-- One call, with what the rest of the calls get.
granted_step :
    (w lo now rest c : ℕ) (l : CaptureRateLimiter)
    → lo ≤ now
    → l.window_start ≡ lo / 1000 * 1000
    → l.count ≤ l.max_captures_per_second
    → (suc w ≤ now / 1000 → c ≡ 0)
    → rest ≡ min c (budget w (try_acquire l now).1)
    → (if nat_beq (now / 1000) w && (try_acquire l now).0 then 1 else 0) + rest
      ≡ min ((if nat_beq (now / 1000) w then 1 else 0) + c) (budget w l)
unfolding try_acquire
granted_step w lo now rest c l a s h past e = ground (arith, past)

granted_in-answers :
    (w lo : ℕ) (l : CaptureRateLimiter) (times : List ℕ)
    → Ascending lo times
    → l.window_start ≡ lo / 1000 * 1000
    → l.count ≤ l.max_captures_per_second
    → granted_in w times (answers l times) ≡ min (calls_in w times) (budget w l)
unfolding answers
granted_in-answers w lo l [] a s h = ground arith
granted_in-answers w lo l (now ∷ later) a s h =
    granted_step w lo now _ _ l a.0 s h (calls_in_past w now later a.1) (
      granted_in-answers w now (try_acquire l now).1 later a.1 (try_acquire-window_start l now)
        (try_acquire-count-le l now h))

-- Calls whose times do not run backwards: in every second the limiter grants exactly the calls
-- made in it, up to the configured number (raised to 1).
pub granted_in_window :
    (max_captures w : ℕ) (times : List ℕ)
    → Ascending 0 times
    → granted_in w times (answers (create max_captures) times)
      ≡ min (calls_in w times) (max 1 max_captures)
unfolding create
granted_in_window max_captures w times a =
    ground (arith, granted_in-answers w 0 (create max_captures) times a)
