-- ===== src/Sampler/Applier.antt =====
-- sampler/sampling-rule.ts, sampler/statistics.ts and sampler/sampling-rule-applier.ts: a rule, its
-- counters, and its decisions. Rates are whole millionths; the trace-id ratio sampler of the
-- upstream SDK is a parameter, `ratio rate trace_id`.
pub mod Counts
use aws_otel_js_instrumentat.Prelude.{
  ℕ, ◌+◌, ◌*◌, Bool, true, false, not, ◌&&◌, Option, none, some, List, [], ◌∷◌, String, leb, ltb,
  nat_beq, Testable, ◌==◌, string_test, lookup, if◌then◌else◌,
}
use aws_otel_js_instrumentat.Sampler.Reservoir
use aws_otel_js_instrumentat.Sampler.Reservoir.{RateLimiter, take_one}

pub record SamplingRule : Type 0 where
  pub rule_name : String
  pub rule_arn : Option String
  pub priority : ℕ
  pub reservoir_size : ℕ
  pub fixed_rate : ℕ
  pub service_name : String
  pub service_type : String
  pub host : String
  pub http_method : String
  pub url_path : String
  pub resource_arn : String
  pub version : ℕ
  pub attributes : Option (List (String × String))

-- The constructor's fallback for a missing name.
unfoldable pub new_rule : SamplingRule → SamplingRule
new_rule r = if r.rule_name == "" then record r { rule_name = "Default" } else r

same_option : Option String → Option String → Bool
same_option none none = true
same_option (some s) (some t) = s == t
same_option _ _ = false

has_value : Option String → String → Bool
has_value none value = false
has_value (some held) value = held == value

-- `for (const attributeKey in other.Attributes)`
contains_all : List (String × String) → List (String × String) → Bool
unfolding has_value
contains_all own [] = true
contains_all own ((key, value) ∷ others) =
    has_value (lookup key own) value && contains_all own others

-- `Attributes.length` is the attribute of that name: the objects are not arrays.
attributes_equal : Option (List (String × String)) → Option (List (String × String)) → Bool
unfolding same_option contains_all
attributes_equal none none = true
attributes_equal (some own) (some others) =
    same_option (lookup "length" own) (lookup "length" others) && contains_all own others
attributes_equal _ _ = false

unfoldable pub equals : SamplingRule → SamplingRule → Bool
unfolding attributes_equal same_option
equals own other =
    nat_beq own.fixed_rate other.fixed_rate
    && own.http_method == other.http_method
    && own.host == other.host
    && nat_beq own.priority other.priority
    && nat_beq own.reservoir_size other.reservoir_size
    && own.resource_arn == other.resource_arn
    && same_option own.rule_arn other.rule_arn
    && own.rule_name == other.rule_name
    && own.service_name == other.service_name
    && own.service_type == other.service_type
    && own.url_path == other.url_path
    && nat_beq own.version other.version
    && attributes_equal own.attributes other.attributes

pub record Statistics : Type 0 where
  pub request_count : ℕ
  pub sample_count : ℕ
  pub borrow_count : ℕ

abbrev pub reset_statistics : Statistics
reset_statistics = record { request_count = 0; sample_count = 0; borrow_count = 0 }

pub record SamplingTarget : Type 0 where
  pub rule_name : String
  pub fixed_rate : Option ℕ
  pub reservoir_quota : Option ℕ
  pub reservoir_quota_ttl : Option ℕ
  pub interval : Option ℕ

pub record SamplingRuleApplier : Type 0 where
  pub sampling_rule : SamplingRule
  pub reservoir : RateLimiter
  pub fixed_rate : ℕ
  pub statistics : Statistics
  pub borrowing_enabled : Bool
  pub reservoir_expiry : ℕ

abbrev max_date_time_millis : ℕ
max_date_time_millis = 8640000000000000

unfoldable pub new_applier : SamplingRule → ℕ → SamplingRuleApplier
unfolding new_rule
new_applier rule now = record {
  sampling_rule = new_rule rule;
  reservoir = Reservoir.create (if ltb 0 rule.reservoir_size then 1 else 0) now;
  fixed_rate = rule.fixed_rate;
  statistics = reset_statistics;
  borrowing_enabled = true;
  reservoir_expiry = max_date_time_millis;
}

quota_or : Option ℕ → RateLimiter → ℕ → RateLimiter
quota_or none reservoir now = reservoir
quota_or (some quota) reservoir now = Reservoir.create quota now

expiry_or : Option ℕ → ℕ → ℕ
expiry_or none now = now
expiry_or (some ttl) now = ttl * 1000

rate_or : Option ℕ → ℕ → ℕ
rate_or none rate = rate
rate_or (some r) rate = r

-- The constructor resets the statistics that it shares with the applier it replaces.
unfoldable pub with_target : SamplingRuleApplier → SamplingTarget → ℕ → SamplingRuleApplier
unfolding new_applier quota_or expiry_or rate_or
with_target a target now =
    let fresh = new_applier a.sampling_rule now in
    record fresh {
      borrowing_enabled = false;
      reservoir = quota_or target.reservoir_quota fresh.reservoir now;
      reservoir_expiry = expiry_or target.reservoir_quota_ttl now;
      fixed_rate = rate_or target.fixed_rate fresh.fixed_rate;
    }

one_if : Bool → ℕ
one_if b = if b then 1 else 0

count_decision : Bool → Bool → Statistics → Statistics
unfolding one_if
count_decision sampled has_borrowed s = record {
  request_count = s.request_count + 1;
  sample_count = s.sample_count + one_if sampled;
  borrow_count = s.borrow_count + one_if has_borrowed;
}

-- The reservoir's answer, unless it has expired, and the reservoir after it.
ask_reservoir : SamplingRuleApplier → ℕ → Bool × RateLimiter
ask_reservoir a now =
    if leb a.reservoir_expiry now then (false, a.reservoir) else take_one a.reservoir now

module _ (ratio : ℕ → String → Bool) where
  decide : SamplingRuleApplier → String → Bool × RateLimiter → Bool × SamplingRuleApplier
  unfolding count_decision
  decide a trace_id (from_reservoir, reservoir) =
      let sampled = if from_reservoir then true else ratio a.fixed_rate trace_id in
      (
        sampled,
        record a {
          reservoir = reservoir;
          statistics = count_decision sampled (a.borrowing_enabled && from_reservoir) a.statistics;
        },
      )

  unfoldable pub should_sample : SamplingRuleApplier → ℕ → String → Bool × SamplingRuleApplier
  unfolding decide ask_reservoir
  should_sample a now trace_id = decide a trace_id (ask_reservoir a now)

unfoldable pub snapshot_statistics : SamplingRuleApplier → Statistics × SamplingRuleApplier
snapshot_statistics a = (a.statistics, record a { statistics = reset_statistics })
