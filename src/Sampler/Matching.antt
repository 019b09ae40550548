-- ===== src/Sampler/Matching.antt =====
-- sampler/utils.ts: the wildcards and the attributes of a rule. The UTF-16 code units of a text, and
-- `toLowerCase`, are parameters.
pub mod Wildcards
pub mod Attributes
use aws_otel_js_instrumentat.Prelude.{
  ℕ, suc, ◌+◌, Bool, true, false, not, ◌&&◌, ◌||◌, Option, none, some, List, [], ◌∷◌, String,
  is_empty, length, ltb, leb, nat_beq, any, Testable, ◌==◌, string_test, lookup, if◌then◌else◌,
}

-- A string, or another value, which `||` passes over (`0`, `false`, `NaN`) or keeps.
pub data AttributeValue : Type 0 where
  text : String → AttributeValue
  falsy : AttributeValue
  other : AttributeValue

-- What `.` matches in a regular expression: anything but a line terminator.
abbrev pub is_dot : ℕ → Bool
is_dot c = not (any (nat_beq c) (10 ∷ 13 ∷ 8232 ∷ 8233 ∷ []))

-- `.*` and then `rest`.
unfoldable pub match_star : (List ℕ → Bool) → List ℕ → Bool
match_star rest [] = rest []
match_star rest (c ∷ cs) = rest (c ∷ cs) || (is_dot c && match_star rest cs)

unfoldable pub match_dot : (List ℕ → Bool) → List ℕ → Bool
match_dot rest [] = false
match_dot rest (c ∷ cs) = is_dot c && rest cs

unfoldable pub match_unit : ℕ → (List ℕ → Bool) → List ℕ → Bool
match_unit p rest [] = false
match_unit p rest (c ∷ cs) = nat_beq c p && rest cs

-- The match of `^...$` for a pattern in which `*` (42) becomes `.*`, `?` (63) becomes `.`, and every
-- other unit stands for itself.
unfoldable pub match_pattern : List ℕ → List ℕ → Bool
unfolding match_dot match_unit
match_pattern [] cs = is_empty cs
match_pattern (p ∷ ps) cs =
    if nat_beq p 42
    then match_star (match_pattern ps) cs
    else if nat_beq p 63
    then match_dot (match_pattern ps) cs
    else match_unit p (match_pattern ps) cs

module _ (units : String → List ℕ) (to_lower_case : String → String) where
  unfoldable pub match_text : String → String → Bool
  match_text pattern_text s =
      if is_empty (units pattern_text)
      then is_empty (units s)
      else match_pattern (units (to_lower_case pattern_text)) (units (to_lower_case s))

  unfoldable pub match_value : String → Option AttributeValue → Bool
  unfolding match_text
  match_value pattern_text none = false
  match_value pattern_text (some other) = false
  match_value pattern_text (some falsy) = false
  match_value pattern_text (some (text s)) = match_text pattern_text s

  unfoldable pub wildcard_match : Option String → Option AttributeValue → Bool
  unfolding match_value
  wildcard_match none value = false
  wildcard_match (some pattern_text) value =
      if pattern_text == "*" then true else match_value pattern_text value

one_if : Bool → ℕ
one_if b = if b then 1 else 0

-- The test of one attribute, over any match of a pattern and a value.
module _ (matches : Option String → Option AttributeValue → Bool) where
  unfoldable pub is_matched : Option String → AttributeValue → Bool
  is_matched none value = false
  is_matched (some pattern_text) value = matches (some pattern_text) (some value)

  unfoldable pub matched_count : List (String × AttributeValue) → List (String × String) → ℕ
  unfolding is_matched one_if
  matched_count [] rule_attributes = 0
  matched_count ((key, value) ∷ attributes) rule_attributes =
      one_if (is_matched (lookup key rule_attributes) value)
      + matched_count attributes rule_attributes

  unfoldable pub match_all : List (String × AttributeValue) → List (String × String) → Bool
  match_all attributes rule_attributes =
      if is_empty attributes || ltb (length attributes) (length rule_attributes)
      then false
      else nat_beq (matched_count attributes rule_attributes) (length rule_attributes)

  unfoldable pub attribute_match :
      Option (List (String × AttributeValue)) → Option (List (String × String)) → Bool
  unfolding match_all
  attribute_match attributes none = true
  attribute_match attributes (some []) = true
  attribute_match none (some (r ∷ rs)) = false
  attribute_match (some attributes) (some (r ∷ rs)) = match_all attributes (r ∷ rs)
