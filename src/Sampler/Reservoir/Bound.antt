-- ===== src/Sampler/Reservoir/Bound.antt =====
-- How many traces the reservoir of sampler/rate-limiter.ts lets through.
use native.Mathlib.Nat.{mul-le-mul_left}
use aws_otel_js_instrumentat.Prelude.{
  ℕ, ◌+◌, ◌-◌, ◌*◌, ◌≤◌, max, List, [], ◌∷◌, if◌then◌else◌, ◌≡◌, refl, sym, ap, ◌∙◌, arith,
}
use aws_otel_js_instrumentat.Sampler.Reservoir.{RateLimiter, balance, take_one, taken}

-- Times that do not run backwards, between two bounds.
abbrev pub IsAscending : ℕ → ℕ → List ℕ → Type 0
IsAscending lo hi [] = Unit {0}
IsAscending lo hi (now ∷ later) = (lo ≤ now) × ((now ≤ hi) × IsAscending now hi later)

-- One call: the floor rises by the cost of a trace that is taken, from the floor or from one second
-- before the call, whichever is later.
take_step :
    (q : ℕ) (l : RateLimiter) (lo hi now rest : ℕ)
    → l.quota ≡ q
    → lo * q ≤ now * q
    → now * q ≤ hi * q
    → 1000 * rest + max (take_one l now).1.scaled_wallet_floor (now * q - 1000 * q)
      ≤ max (max (take_one l now).1.scaled_wallet_floor (now * q - 1000 * q)) (hi * q)
    → 1000 * ((if (take_one l now).0 then 1 else 0) + rest)
        + max l.scaled_wallet_floor (lo * q - 1000 * q)
      ≤ max (max l.scaled_wallet_floor (lo * q - 1000 * q)) (hi * q)
unfolding take_one balance
take_step q l lo hi now rest same below above h = ground arith

take_one-quota : (l : RateLimiter) (now : ℕ) → (take_one l now).1.quota ≡ l.quota
unfolding take_one
take_one-quota l now = ground arith

scaled : (q m n : ℕ) → m ≤ n → m * q ≤ n * q
scaled q m n h = omega (arith, mul-le-mul_left q h)

spread : (q lo hi : ℕ) → lo ≤ hi → (hi - lo) * q + lo * q ≡ hi * q
spread q lo hi le = sym (sum_times (hi - lo) lo q) ∙ ap (λ (n : ℕ). n * q) (omega (arith, le))
  where
    sum_times : (d m n : ℕ) → (d + m) * n ≡ d * n + m * n
    sum_times d m n = omega arith

taken_from :
    (q : ℕ) (l : RateLimiter) (lo hi : ℕ) (times : List ℕ)
    → l.quota ≡ q
    → IsAscending lo hi times
    → 1000 * taken l times + max l.scaled_wallet_floor (lo * q - 1000 * q)
      ≤ max (max l.scaled_wallet_floor (lo * q - 1000 * q)) (hi * q)
unfolding taken
taken_from q l lo hi [] same b = omega arith
taken_from q l lo hi (now ∷ later) same b =
    take_step q l lo hi now (taken (take_one l now).1 later) same (scaled q lo now b.0)
      (scaled q now hi b.1.0)
      (taken_from q (take_one l now).1 now hi later (take_one-quota l now ∙ same) b.1.1)

-- In any state, calls between two times take at most `quota` traces for each second between them
-- and for one second more, the balance that is kept.
pub taken_between :
    (l : RateLimiter) (lo hi : ℕ) (times : List ℕ)
    → lo ≤ hi
    → IsAscending lo hi times
    → 1000 * taken l times ≤ (hi - lo) * l.quota + 1000 * l.quota
taken_between l lo hi times le b = omega (
  arith,
  taken_from l.quota l lo hi times refl b,
  scaled l.quota lo hi le,
  spread l.quota lo hi le,
)
