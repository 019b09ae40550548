-- ===== src/DynamicInstrumentation/State.antt =====
-- dynamic-instrumentation/model/instrumentation-state.ts: hit counts, disabling and status of one
-- configuration. The clock is an argument; `expiresAt` is in whole milliseconds.
pub mod Hits
use aws_otel_js_instrumentat.Prelude.{
  ℕ, ◌+◌, Bool, true, false, Option, none, some, String, ltb, leb, if◌then◌else◌,
}
use aws_otel_js_instrumentat.DynamicInstrumentation.RateLimiter.{
  CaptureRateLimiter, create, try_acquire,
}

pub data InstrumentationType : Type 0 where
  probe breakpoint : InstrumentationType

pub data ConfigurationStatus : Type 0 where
  ready active disabled failed : ConfigurationStatus

pub data DisableReason : Type 0 where
  max_hits_reached expired : DisableReason

pub record InstrumentationState : Type 0 where
  pub location_hash : String
  pub max_hits : ℕ
  pub expires_at : Option ℕ
  pub instrumentation_type : InstrumentationType
  pub rate_limiter : CaptureRateLimiter
  pub hit_count : ℕ
  pub is_disabled : Bool
  pub disable_reason : Option DisableReason
  pub hit_in_last_period : Bool
  pub installed : Bool
  pub ready_reported : Bool
  pub disabled_reported : Bool
  pub error_reported : Bool

unfoldable pub new_state : String → ℕ → Option ℕ → InstrumentationType → ℕ → InstrumentationState
new_state location_hash max_hits expires_at instrumentation_type captures_per_second = record {
  location_hash = location_hash;
  max_hits = max_hits;
  expires_at = expires_at;
  instrumentation_type = instrumentation_type;
  rate_limiter = create captures_per_second;
  hit_count = 0;
  is_disabled = false;
  disable_reason = none;
  hit_in_last_period = false;
  installed = false;
  ready_reported = false;
  disabled_reported = false;
  error_reported = false;
}

disable : InstrumentationState → DisableReason → InstrumentationState
disable s reason = record s { is_disabled = true; disable_reason = some reason }

-- The end of `recordHit`: the limiter is asked, and only a granted hit is counted.
throttle : InstrumentationState → Bool × CaptureRateLimiter → Bool × InstrumentationState
throttle s (true, l) = (true, record s { rate_limiter = l; hit_count = s.hit_count + 1 })
throttle s (false, l) = (false, record s { rate_limiter = l })

seen : InstrumentationState → InstrumentationState
seen s = record s { hit_in_last_period = true }

unfoldable pub record_hit : InstrumentationState → ℕ → Bool × InstrumentationState
unfolding disable throttle seen
record_hit s now =
    if s.is_disabled
    then (false, s)
    else if leb s.max_hits s.hit_count
    then (false, disable (seen s) max_hits_reached)
    else throttle (seen s) (try_acquire s.rate_limiter now)

is_past : Option ℕ → ℕ → Bool
is_past none now = false
is_past (some t) now = leb t now

unfoldable pub check_expiry : InstrumentationState → ℕ → Bool × InstrumentationState
unfolding is_past disable
check_expiry s now =
    if s.is_disabled
    then (true, s)
    else if is_past s.expires_at now
    then (true, disable s expired)
    else (false, s)

unfoldable pub get_status : InstrumentationState → ConfigurationStatus
get_status s = if s.is_disabled then disabled else if ltb 0 s.hit_count then active else ready

unfoldable pub reset_period_flag : InstrumentationState → InstrumentationState
reset_period_flag s = record s { hit_in_last_period = false }
