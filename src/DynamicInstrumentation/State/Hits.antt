-- ===== src/DynamicInstrumentation/State/Hits.antt =====
-- Histories of one configuration's state (dynamic-instrumentation/model/instrumentation-state.ts):
-- the breakpoint is hit, its expiry is checked, its period flag is reset.
use aws_otel_js_instrumentat.Prelude.{
  ℕ, ◌+◌, ◌≤◌, Bool, true, false, Option, none, some, List, [], ◌∷◌, ◌≡◌, refl, ◌≢◌, if◌then◌else◌,
  arith, String,
}
use aws_otel_js_instrumentat.DynamicInstrumentation.State.{
  InstrumentationState, InstrumentationType, max_hits_reached, expired, record_hit, check_expiry,
  reset_period_flag, get_status, disabled, new_state,
}

pub data Event : Type 0 where
  hit : ℕ → Event
  expiry_check : ℕ → Event
  period_reset : Event

-- The state after an event, and whether the event was a capture that may proceed.
pub step : InstrumentationState → Event → Bool × InstrumentationState
step s (hit now) = record_hit s now
step s (expiry_check now) = (false, (check_expiry s now).1)
step s period_reset = (false, reset_period_flag s)

pub run : InstrumentationState → List Event → InstrumentationState
run s [] = s
run s (e ∷ es) = run (step s e).1 es

pub captures : InstrumentationState → List Event → ℕ
captures s [] = 0
captures s (e ∷ es) = (if (step s e).0 then 1 else 0) + captures (step s e).1 es

-- What holds of a state between events.
pub record IsCoherent (s : InstrumentationState) : Type 0 where
  pub within : s.hit_count ≤ s.max_hits
  pub enabled : s.is_disabled ≡ false → s.disable_reason ≡ none
  pub reasoned : s.is_disabled ≡ true → s.disable_reason ≢ none
  pub spent : s.disable_reason ≡ some max_hits_reached → s.max_hits ≤ s.hit_count
  pub timed : s.disable_reason ≡ some expired → s.expires_at ≢ none

step-IsCoherent : (s : InstrumentationState) (e : Event) → IsCoherent s → IsCoherent (step s e).1
unfolding step record_hit check_expiry reset_period_flag
step-IsCoherent s (hit now) h = ground (arith, h.enabled, h.reasoned, h.spent, h.timed)
step-IsCoherent s (expiry_check now) h = ground (arith, h.enabled, h.reasoned, h.spent, h.timed)
step-IsCoherent s period_reset h = ground (arith, h.enabled, h.reasoned, h.spent, h.timed)

pub new_state-IsCoherent :
    (hash : String) (most : ℕ) (expires : Option ℕ) (type : InstrumentationType) (rate : ℕ)
    → IsCoherent (new_state hash most expires type rate)
unfolding new_state
new_state-IsCoherent hash most expires type rate = ground arith

-- Every history keeps the counters and the disable reason coherent.
pub run-IsCoherent :
    (s : InstrumentationState) (es : List Event) → IsCoherent s → IsCoherent (run s es)
unfolding run
run-IsCoherent s [] h = h
run-IsCoherent s (e ∷ es) h = run-IsCoherent (step s e).1 es (step-IsCoherent s e h)

step-hit_count :
    (s : InstrumentationState) (e : Event)
    → (step s e).1.hit_count ≡ (if (step s e).0 then 1 else 0) + s.hit_count
unfolding step record_hit check_expiry reset_period_flag
step-hit_count s (hit now) = ground arith
step-hit_count s (expiry_check now) = ground arith
step-hit_count s period_reset = ground arith

run-hit_count :
    (s : InstrumentationState) (es : List Event)
    → (run s es).hit_count ≡ captures s es + s.hit_count
unfolding run captures
run-hit_count s [] = omega arith
run-hit_count s (e ∷ es) = omega (arith, run-hit_count (step s e).1 es, step-hit_count s e)

step-max_hits : (s : InstrumentationState) (e : Event) → (step s e).1.max_hits ≡ s.max_hits
unfolding step record_hit check_expiry reset_period_flag
step-max_hits s (hit now) = ground arith
step-max_hits s (expiry_check now) = ground arith
step-max_hits s period_reset = ground arith

run-max_hits : (s : InstrumentationState) (es : List Event) → (run s es).max_hits ≡ s.max_hits
unfolding run
run-max_hits s [] = refl
run-max_hits s (e ∷ es) = omega (arith, run-max_hits (step s e).1 es, step-max_hits s e)

-- From a new state, any history of hits and checks lets through at most `max_hits` captures, and
-- `hit_count` is exactly their number.
pub captures_bounded :
    (hash : String) (most : ℕ) (expires : Option ℕ) (type : InstrumentationType) (rate : ℕ)
    (es : List Event)
    → let s = new_state hash most expires type rate in
      (captures s es ≤ most) × ((run s es).hit_count ≡ captures s es)
captures_bounded hash most expires type rate es =
    let s = new_state hash most expires type rate in
    let keeps = run-IsCoherent s es (new_state-IsCoherent hash most expires type rate) in
    let (m, z) = start in
    (
      omega (arith, keeps.within, run-hit_count s es, run-max_hits s es, m, z),
      omega (arith, run-hit_count s es, z),
    )
  where
    start :
        ((new_state hash most expires type rate).max_hits ≡ most)
        × ((new_state hash most expires type rate).hit_count ≡ 0)
    start = unfold new_state in (refl, refl)

disabled_step :
    (s : InstrumentationState) (e : Event)
    → s.is_disabled ≡ true
    → ((step s e).0 ≡ false)
      × ((step s e).1.is_disabled ≡ true)
      × ((step s e).1.disable_reason ≡ s.disable_reason)
      × ((step s e).1.hit_count ≡ s.hit_count)
unfolding step record_hit check_expiry reset_period_flag
disabled_step s (hit now) h = ground arith
disabled_step s (expiry_check now) h = ground arith
disabled_step s period_reset h = ground arith

-- A disabled configuration stays disabled for the reason it was, captures nothing more, and is
-- reported DISABLED.
pub disabled_for_good :
    (s : InstrumentationState) (es : List Event)
    → s.is_disabled ≡ true
    → (captures s es ≡ 0)
      × (get_status (run s es) ≡ disabled)
      × ((run s es).disable_reason ≡ s.disable_reason)
unfolding run captures get_status
disabled_for_good s [] h = ground arith
disabled_for_good s (e ∷ es) h =
    let (refused, still, reason, count) = disabled_step s e h in
    ground (arith, disabled_for_good (step s e).1 es still)
