-- ===== src/Sampler/Reservoir.antt =====
-- sampler/rate-limiter.ts and sampler/rate-limiting-sampler.ts: the reservoir of a rule. Times are
-- whole milliseconds. The wallet's floor is kept times the quota, so that the cost of one trace,
-- 1000 / quota milliseconds, is the whole number 1000.
pub mod Bound
use aws_otel_js_instrumentat.Prelude.{
  ℕ, ◌+◌, ◌-◌, ◌*◌, min, Bool, true, false, List, [], ◌∷◌, leb, nat_beq, if◌then◌else◌,
}

pub record RateLimiter : Type 0 where
  pub quota : ℕ
  pub scaled_wallet_floor : ℕ

unfoldable pub create : ℕ → ℕ → RateLimiter
create quota now = record { quota = quota; scaled_wallet_floor = now * quota }

-- `MAX_BALANCE_MILLIS` is one second.
balance : RateLimiter → ℕ → ℕ
balance l now = min (now * l.quota - l.scaled_wallet_floor) (1000 * l.quota)

unfoldable pub take_one : RateLimiter → ℕ → Bool × RateLimiter
unfolding balance
take_one l now =
    if nat_beq l.quota 0
    then (false, l)
    else if leb 1000 (balance l now)
    then (true, record l { scaled_wallet_floor = now * l.quota - (balance l now - 1000) })
    else (false, l)

-- The traces taken by calls at the given times.
unfoldable pub taken : RateLimiter → List ℕ → ℕ
taken l [] = 0
taken l (now ∷ later) =
    let rest = taken (take_one l now).1 later in (if (take_one l now).0 then 1 else 0) + rest
