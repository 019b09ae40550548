-- ===== src/Sampler/Rules.antt =====
-- sampler/rule-cache.ts and the decisions and updates of sampler/aws-xray-remote-sampler.ts. Rules
-- are ordered by priority and then by name; names are compared by code points. Whether a rule
-- matches a request's attributes is an argument, `matches`.
pub mod Update
use Prim.Native.String.{compare}
use Prim.Native.Nat.{Ordering}
use aws_otel_js_instrumentat.Prelude.{
  ℕ, ◌+◌, ◌*◌, ◌/◌, Bool, true, false, not, ◌&&◌, ◌||◌, Option, none, some, List, [], ◌∷◌, ◌++◌,
  String, map, leb, ltb, nat_beq, Testable, ◌==◌, string_test, lookup, insert, if◌then◌else◌,
  sort_by,
}
use aws_otel_js_instrumentat.Sampler.Reservoir.{RateLimiter, take_one}
use aws_otel_js_instrumentat.Sampler.Applier.{
  SamplingRule, SamplingRuleApplier, SamplingTarget, Statistics, equals, new_applier, with_target,
  should_sample, snapshot_statistics,
}

pub record RuleCache : Type 0 where
  pub rule_appliers : List SamplingRuleApplier
  pub last_updated : ℕ

abbrev rule_cache_ttl_millis : ℕ
rule_cache_ttl_millis = 3600000

abbrev pub default_target_polling_interval : ℕ
default_target_polling_interval = 10

unfoldable pub is_expired : RuleCache → ℕ → Bool
is_expired c now = ltb (c.last_updated + rule_cache_ttl_millis) now

abbrev pub name_of : SamplingRuleApplier → String
name_of a = a.sampling_rule.rule_name

abbrev text_less : String → String → Bool
text_less s t = elim (compare s t) [ Ordering.lt ↦ true | _ ↦ false ]

-- The comparator of `sortRulesByPriority`: true when the first rule comes first.
unfoldable pub before : SamplingRuleApplier → SamplingRuleApplier → Bool
before a b =
    if nat_beq a.sampling_rule.priority b.sampling_rule.priority
    then text_less (name_of a) (name_of b)
    else leb a.sampling_rule.priority b.sampling_rule.priority

unfoldable pub by_name :
    List SamplingRuleApplier
    → List (String × SamplingRuleApplier)
    → List (String × SamplingRuleApplier)
by_name [] m = m
by_name (a ∷ appliers) m = by_name appliers (insert (name_of a) a m)

-- The applier that a rule of the response gets.
unfoldable pub kept_or : Option SamplingRuleApplier → SamplingRuleApplier → SamplingRuleApplier
kept_or none new = new
kept_or (some old) new = if equals new.sampling_rule old.sampling_rule then old else new

unfoldable pub replaced :
    List (String × SamplingRuleApplier) → List SamplingRuleApplier → List SamplingRuleApplier
replaced olds news = map (λ new. kept_or (lookup (name_of new) olds) new) news

unfoldable pub update_rules : RuleCache → List SamplingRuleApplier → ℕ → RuleCache
update_rules c news now = record {
  rule_appliers = sort_by before (replaced (by_name c.rule_appliers []) news);
  last_updated = now;
}

pub record SamplingStatisticsDocument : Type 0 where
  pub rule_name : String
  pub timestamp : ℕ
  pub statistics : Statistics

document : SamplingRuleApplier → ℕ → SamplingStatisticsDocument
document a now = record {
  rule_name = name_of a;
  timestamp = now / 1000;
  statistics = (snapshot_statistics a).0;
}

unfoldable pub create_sampling_statistics_documents :
    RuleCache → ℕ → List SamplingStatisticsDocument × RuleCache
unfolding document
create_sampling_statistics_documents c now = (
  map (λ a. document a now) c.rule_appliers,
  record c { rule_appliers = map (λ a. (snapshot_statistics a).1) c.rule_appliers },
)

unfoldable pub smaller : Option ℕ → Option ℕ → Option ℕ
smaller none interval = interval
smaller least none = least
smaller (some least) (some interval) = if ltb interval least then some interval else some least

retarget : Option SamplingTarget → ℕ → SamplingRuleApplier → SamplingRuleApplier
retarget none now a = a
retarget (some target) now a = with_target a target now

unfoldable pub interval_of : Option SamplingTarget → Option ℕ
interval_of none = none
interval_of (some target) = target.interval

-- The loop of `updateTargets`: the least interval seen so far.
unfoldable pub least_interval :
    List (String × SamplingTarget) → List SamplingRuleApplier → Option ℕ → Option ℕ
unfolding smaller interval_of
least_interval targets [] least = least
least_interval targets (a ∷ appliers) least =
    least_interval targets appliers (smaller least (interval_of (lookup (name_of a) targets)))

unfoldable pub or_default : Option ℕ → ℕ
or_default none = default_target_polling_interval
or_default (some interval) = interval

-- Whether the rules are to be fetched again, the next polling interval, and the cache.
unfoldable pub update_targets :
    RuleCache → List (String × SamplingTarget) → ℕ → ℕ → (Bool × ℕ) × RuleCache
unfolding retarget
update_targets c targets last_rule_modification now = (
  (
    ltb c.last_updated (last_rule_modification * 1000),
    or_default (least_interval targets c.rule_appliers none),
  ),
  record c {
    rule_appliers = map (λ a. retarget (lookup (name_of a) targets) now a) c.rule_appliers;
  },
)

-- `targetDocuments[newTarget.RuleName] = newTarget`
unfoldable pub target_map :
    List SamplingTarget → List (String × SamplingTarget) → List (String × SamplingTarget)
target_map [] m = m
target_map (t ∷ ts) m = target_map ts (insert t.rule_name t m)

new_appliers : List (Option SamplingRule) → ℕ → List SamplingRuleApplier
new_appliers [] now = []
new_appliers (none ∷ records) now = new_appliers records now
new_appliers (some rule ∷ records) now = new_applier rule now ∷ new_appliers records now

-- `updateSamplingRules` on the records of a response, `none` when it has none.
unfoldable pub update_sampling_rules :
    RuleCache → Option (List (Option SamplingRule)) → ℕ → RuleCache
unfolding new_appliers
update_sampling_rules c none now = c
update_sampling_rules c (some records) now = update_rules c (new_appliers records now) now

unfoldable pub update_sampling_targets :
    RuleCache → List SamplingTarget → ℕ → ℕ → (Bool × ℕ) × RuleCache
update_sampling_targets c documents last_rule_modification now =
    update_targets c (target_map documents []) last_rule_modification now

pub record FallbackSampler : Type 0 where
  pub reservoir : RateLimiter
  pub fixed_rate : ℕ

pub record RemoteSampler : Type 0 where
  pub rule_cache : RuleCache
  pub fallback : FallbackSampler

module _ (ratio : ℕ → String → Bool) (matches : SamplingRule → Bool) where
  unfoldable pub fallback_should_sample : FallbackSampler → ℕ → String → Bool × FallbackSampler
  fallback_should_sample f now trace_id =
      let (taken, reservoir) = take_one f.reservoir now in
      (if taken then true else ratio f.fixed_rate trace_id, record f { reservoir = reservoir })

  unfoldable pub is_match : SamplingRuleApplier → Bool
  is_match a = matches a.sampling_rule || name_of a == "Default"

  keep_front :
      SamplingRuleApplier
      → Option (Bool × List SamplingRuleApplier)
      → Option (Bool × List SamplingRuleApplier)
  keep_front a none = none
  keep_front a (some (sampled, appliers)) = some (sampled, a ∷ appliers)

  -- The decision of the first rule that matches, and the rules after it.
  unfoldable pub sample_matched :
      List SamplingRuleApplier → ℕ → String → Option (Bool × List SamplingRuleApplier)
  unfolding is_match keep_front
  sample_matched [] now trace_id = none
  sample_matched (a ∷ appliers) now trace_id =
      let rest = sample_matched appliers now trace_id in
      if is_match a
      then some (
        (should_sample ratio a now trace_id).0,
        (should_sample ratio a now trace_id).1 ∷ appliers,
      )
      else keep_front a rest

  with_fallback :
      RemoteSampler → ℕ → String → Option (Bool × List SamplingRuleApplier) → Bool × RemoteSampler
  with_fallback r now trace_id none =
      let (sampled, fallback) = fallback_should_sample r.fallback now trace_id in
      (sampled, record r { fallback = fallback })
  with_fallback r now trace_id (some (sampled, appliers)) =
      (sampled, record r { rule_cache = record r.rule_cache { rule_appliers = appliers } })

  unfoldable pub remote_should_sample : RemoteSampler → ℕ → String → Bool × RemoteSampler
  unfolding with_fallback
  remote_should_sample r now trace_id = with_fallback r now trace_id (
      if is_expired r.rule_cache now
      then none
      else sample_matched r.rule_cache.rule_appliers now trace_id)
