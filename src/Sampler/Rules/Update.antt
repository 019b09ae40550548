-- ===== src/Sampler/Rules/Update.antt =====
-- What an update of the rules, an update of the targets and a decision do to the rules of
-- sampler/rule-cache.ts and sampler/aws-xray-remote-sampler.ts.
use aws_otel_js_instrumentat.Prelude.{
  ℕ, ◌≤◌, Bool, true, false, Option, none, some, List, [], ◌∷◌, ◌++◌, String, leb, ltb, string_test,
  lookup, if◌then◌else◌, All, ◌≡◌, refl, ◌⊎◌, arith,
}
use aws_otel_js_instrumentat.Sampler.Applier.{
  SamplingRule, SamplingRuleApplier, SamplingTarget, should_sample,
}
use aws_otel_js_instrumentat.Sampler.Rules.{
  RuleCache, name_of, smaller, interval_of, least_interval, or_default, update_targets,
  default_target_polling_interval, is_match, keep_front, sample_matched,
}

abbrev pub priority_leb : SamplingRuleApplier → SamplingRuleApplier → Bool
priority_leb a b = leb a.sampling_rule.priority b.sampling_rule.priority

abbrev pub with_first : Option ℕ → List ℕ → List ℕ
with_first none xs = xs
with_first (some n) xs = n ∷ xs

-- The intervals of the targets that name a rule.
abbrev pub intervals : List (String × SamplingTarget) → List SamplingRuleApplier → List ℕ
intervals targets [] = []
intervals targets (a ∷ appliers) =
    with_first (interval_of (lookup (name_of a) targets)) (intervals targets appliers)

abbrev pub Member : ℕ → List ℕ → Type 0
Member n [] = ⊥
Member n (m ∷ ms) = (m ≡ n) ⊎ Member n ms

abbrev pub IsEmpty : List ℕ → Type 0
IsEmpty [] = Unit {0}
IsEmpty (n ∷ ns) = ⊥

-- The state of the loop: nothing seen, or the least of those seen.
abbrev Least : Option ℕ → List ℕ → Type 0
Least none seen = IsEmpty seen
Least (some least) seen = All (λ n. least ≤ n) seen × Member least seen

Least-both :
    (r : Option ℕ) (m n : ℕ) (xs : List ℕ)
    → Least r ((if ltb n m then n else m) ∷ xs)
    → Least r (m ∷ n ∷ xs)
Least-both none m n xs h = h
Least-both (some r) m n xs h = ground arith

Least-first :
    (b : Bool) (r : Option ℕ) (m n : ℕ) (xs : List ℕ)
    → Least r (with_first (if b then some n else some m) xs)
    → Least r ((if b then n else m) ∷ xs)
Least-first true r m n xs h = h
Least-first false r m n xs h = h

Least-smaller :
    (r least interval : Option ℕ) (xs : List ℕ)
    → Least r (with_first (smaller least interval) xs)
    → Least r (with_first least (with_first interval xs))
unfolding smaller
Least-smaller r none interval xs h = h
Least-smaller r (some m) none xs h = h
Least-smaller r (some m) (some n) xs h = Least-both r m n xs (Least-first (ltb n m) r m n xs h)

least_interval-Least :
    (targets : List (String × SamplingTarget)) (appliers : List SamplingRuleApplier)
    (least : Option ℕ)
    → Least (least_interval targets appliers least) (with_first least (intervals targets appliers))
unfolding least_interval
least_interval-Least targets [] none = tt
least_interval-Least targets [] (some n) = ground arith
least_interval-Least targets (a ∷ appliers) least =
    Least-smaller (least_interval targets (a ∷ appliers) least) least
      (interval_of (lookup (name_of a) targets)) (intervals targets appliers)
      (least_interval-Least targets appliers
        (smaller least (interval_of (lookup (name_of a) targets))))

-- The next interval is the default one when no target of a rule has an interval; else it is one of
-- these intervals, and none of them is less.
abbrev pub IsNextInterval : ℕ → List ℕ → Type 0
IsNextInterval next [] = next ≡ default_target_polling_interval
IsNextInterval next (n ∷ ns) = All (λ m. next ≤ m) (n ∷ ns) × Member next (n ∷ ns)

Least-IsNextInterval : (r : Option ℕ) (xs : List ℕ) → Least r xs → IsNextInterval (or_default r) xs
unfolding or_default
Least-IsNextInterval none [] h = refl
Least-IsNextInterval none (x ∷ xs) h = elim h [ ]
Least-IsNextInterval (some r) [] h = elim h.1 [ ]
Least-IsNextInterval (some r) (x ∷ xs) h = h

-- After an update of the targets the sampler polls again after the least interval of the targets
-- that name one of its rules, or after 10 seconds when none of them has an interval.
pub update_targets-IsNextInterval :
    (c : RuleCache) (targets : List (String × SamplingTarget)) (last_rule_modification now : ℕ)
    → IsNextInterval
        (update_targets c targets last_rule_modification now).0.1
        (intervals targets c.rule_appliers)
unfolding update_targets
update_targets-IsNextInterval c targets last_rule_modification now =
    Least-IsNextInterval (least_interval targets c.rule_appliers none)
      (intervals targets c.rule_appliers) (least_interval-Least targets c.rule_appliers none)

module _ (ratio : ℕ → String → Bool) (matches : SamplingRule → Bool) where
  -- The first rule that matches the request, or is the default rule, decides, and it alone changes.
  pub sample_matched_first :
      (earlier later : List SamplingRuleApplier) (a : SamplingRuleApplier) (now : ℕ)
      (trace_id : String)
      → All (λ b. is_match ratio matches b ≡ false) earlier
      → is_match ratio matches a ≡ true
      → sample_matched ratio matches (earlier ++ a ∷ later) now trace_id
        ≡ some (
          (should_sample ratio a now trace_id).0,
          earlier ++ (should_sample ratio a now trace_id).1 ∷ later,
        )
  unfolding sample_matched keep_front
  sample_matched_first [] later a now trace_id none_before match = ground (arith, match)
  sample_matched_first (b ∷ earlier) later a now trace_id (differs, none_before) match =
      rw (differs, sample_matched_first earlier later a now trace_id none_before match) refl
