-- ===== src/Sampler/Matching/Attributes.antt =====
-- The attributes of sampler/utils.ts.
use mathlib.Core.Path.{◌≡◌, refl, sym, subst}
use mathlib.Core.Logic.{◌↔◌, inl, inr}
use native.Mathlib.Omega.{arith}
use aws_otel_js_instrumentat.Prelude.{
  ◌+◌, ◌≤◌, Bool, true, false, Option, some, List, [], ◌∷◌, String, length, lookup, has_key,
  lookup-has_key, string_test, IsMap, Bool-cases, ◌==◌, if◌then◌else◌,
}
use aws_otel_js_instrumentat.Sampler.Matching.{
  AttributeValue, one_if, is_matched, matched_count, match_all, attribute_match,
}

module _ (matches : Option String → Option AttributeValue → Bool) where
  -- The attributes hold the key with a value that the pattern matches.
  unfoldable pub is_met : String → String → List (String × AttributeValue) → Bool
  is_met key pattern_text [] = false
  is_met key pattern_text ((held, value) ∷ attributes) =
      if held == key
      then matches (some pattern_text) (some value)
      else is_met key pattern_text attributes

  -- Every attribute of a rule is met.
  abbrev pub IsMet : List (String × AttributeValue) → List (String × String) → Type 0
  IsMet attributes rule_attributes =
      (key pattern_text : String)
      → lookup key rule_attributes ≡ some pattern_text
      → is_met key pattern_text attributes ≡ true

  is_met-has_key :
      (k p : String) (xs : List (String × AttributeValue))
      → has_key k xs ≡ false
      → is_met k p xs ≡ false
  unfolding is_met has_key
  is_met-has_key k p [] h = refl
  is_met-has_key k p ((i, w) ∷ xs) h = ground (arith, is_met-has_key k p xs)

  matched_count_nil : (xs : List (String × AttributeValue)) → matched_count matches xs [] ≡ 0
  unfolding matched_count lookup is_matched one_if
  matched_count_nil [] = refl
  matched_count_nil ((i, w) ∷ xs) = ground (arith, matched_count_nil xs)

  matched_count_cons :
      (k p : String) (rs : List (String × String)) (xs : List (String × AttributeValue))
      → has_key k rs ≡ false
      → IsMap xs
      → matched_count matches xs ((k, p) ∷ rs)
        ≡ one_if (is_met k p xs) + matched_count matches xs rs
  unfolding matched_count lookup is_met is_matched one_if
  matched_count_cons k p rs [] h m = refl
  matched_count_cons k p rs ((i, w) ∷ xs) h m = elim (Bool-cases (k == i)) [
    | inl b ↦ ground (
      arith,
      string_test.same_iff k i,
      string_test.same_iff i k,
      matched_count_cons k p rs xs h m.1,
      is_met-has_key k p xs,
      lookup-has_key i rs,
      subst (λ j. has_key j xs ≡ false) (sym ((string_test.same_iff k i).0 b)) m.0,
      subst (λ j. has_key j rs ≡ false) ((string_test.same_iff k i).0 b) h,
    )
    | inr b ↦ ground (
      arith,
      string_test.same_iff k i,
      string_test.same_iff i k,
      matched_count_cons k p rs xs h m.1,
    )
  ]

  matched_count_le :
      (xs : List (String × AttributeValue)) (rs : List (String × String))
      → matched_count matches xs rs ≤ length xs
  unfolding matched_count one_if
  matched_count_le [] rs = ground arith
  matched_count_le ((i, w) ∷ xs) rs = ground (arith, matched_count_le xs rs)

  count_le_rule :
      (xs : List (String × AttributeValue)) (rs : List (String × String))
      → IsMap xs
      → IsMap rs
      → matched_count matches xs rs ≤ length rs
  unfolding one_if
  count_le_rule xs [] m n = ground (arith, matched_count_nil xs)
  count_le_rule xs ((k, p) ∷ rs) m n =
      ground (arith, matched_count_cons k p rs xs n.0 m, count_le_rule xs rs m n.1)

  full_count-IsMet :
      (xs : List (String × AttributeValue)) (rs : List (String × String))
      → IsMap xs
      → IsMap rs
      → matched_count matches xs rs ≡ length rs
      → IsMet xs rs
  unfolding one_if lookup
  full_count-IsMet xs [] m n h k p l = ground arith
  full_count-IsMet xs ((k, p) ∷ rs) m n h j q l = ground (
    arith,
    matched_count_cons k p rs xs n.0 m,
    count_le_rule xs rs m n.1,
    string_test.same_iff k j,
    full_count-IsMet xs rs m n.1
        (ground (arith, matched_count_cons k p rs xs n.0 m, count_le_rule xs rs m n.1)) j q,
  )

  IsMet-tail :
      (k p : String) (xs : List (String × AttributeValue)) (rs : List (String × String))
      → has_key k rs ≡ false
      → IsMet xs ((k, p) ∷ rs)
      → IsMet xs rs
  unfolding lookup
  IsMet-tail k p xs rs new h j q l = elim (Bool-cases (k == j)) [
    | inl b ↦ ground (
      arith,
      lookup-has_key j rs (subst (λ i. has_key i rs ≡ false) ((string_test.same_iff k j).0 b) new),
    )
    | inr b ↦ h j q (ground arith)
  ]

  IsMet-full_count :
      (xs : List (String × AttributeValue)) (rs : List (String × String))
      → IsMap xs
      → IsMap rs
      → IsMet xs rs
      → matched_count matches xs rs ≡ length rs
  unfolding one_if lookup
  IsMet-full_count xs [] m n h = matched_count_nil xs
  IsMet-full_count xs ((k, p) ∷ rs) m n h = ground (
    arith,
    matched_count_cons k p rs xs n.0 m,
    string_test.same_iff k k,
    h k p,
    IsMet-full_count xs rs m n.1 (IsMet-tail k p xs rs n.0 h),
  )

  match_all_iff :
      (xs : List (String × AttributeValue)) (r : String × String) (rs : List (String × String))
      → (match_all matches xs (r ∷ rs) ≡ true)
        ↔ (matched_count matches xs (r ∷ rs) ≡ length (r ∷ rs))
  unfolding match_all
  match_all_iff [] r rs = ground (arith, matched_count_le [] (r ∷ rs))
  match_all_iff (x ∷ xs) r rs = ground (arith, matched_count_le (x ∷ xs) (r ∷ rs))

  -- For attributes and rule attributes with each key at most once, the counting test passes exactly
  -- when each attribute of the rule is among the attributes, with a value that its pattern matches.
  pub attribute_match_lem :
      (xs : List (String × AttributeValue)) (rs : List (String × String))
      → IsMap xs
      → IsMap rs
      → (attribute_match matches (some xs) (some rs) ≡ true) ↔ IsMet xs rs
  unfolding attribute_match lookup
  attribute_match_lem xs [] m n = (λ h k p l. ground arith, λ h. refl)
  attribute_match_lem xs (r ∷ rs) m n = (
    λ h. full_count-IsMet xs (r ∷ rs) m n ((match_all_iff xs r rs).0 h),
    λ h. (match_all_iff xs r rs).1 (IsMet-full_count xs (r ∷ rs) m n h),
  )
