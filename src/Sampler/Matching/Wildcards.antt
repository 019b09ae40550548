-- ===== src/Sampler/Matching/Wildcards.antt =====
-- The wildcards of sampler/utils.ts.
use mathlib.Core.Path.{◌≡◌, refl}
use mathlib.Core.Logic.{◌≢◌, inl, inr, ◌↔◌, ◌⊎◌}
use native.Mathlib.Omega.{arith}
use aws_otel_js_instrumentat.Prelude.{
  ℕ, Bool, true, some, String, List, [], ◌∷◌, is_empty, string_test, nat_beq, nat_beq_iff,
  Bool-cases,
}
use aws_otel_js_instrumentat.Sampler.Matching.{
  is_dot, match_star, match_pattern, match_dot, match_unit, match_value, match_text, wildcard_match,
  text,
}

-- Which texts a pattern describes: `*` any run of units, `?` one unit, and every other unit itself,
-- where a wildcard never stands for a line terminator.
pub data Describes : List ℕ → List ℕ → Type 0 where
  stop : Describes [] []
  star_ends : {p : ℕ} {ps cs : List ℕ} → p ≡ 42 → Describes ps cs → Describes (p ∷ ps) cs
  star_takes :
      {p c : ℕ} {ps cs : List ℕ}
      → p ≡ 42
      → is_dot c ≡ true
      → Describes (p ∷ ps) cs
      → Describes (p ∷ ps) (c ∷ cs)
  one :
      {p c : ℕ} {ps cs : List ℕ}
      → p ≡ 63
      → is_dot c ≡ true
      → Describes ps cs
      → Describes (p ∷ ps) (c ∷ cs)
  itself :
      {p c : ℕ} {ps cs : List ℕ}
      → p ≢ 42
      → p ≢ 63
      → c ≡ p
      → Describes ps cs
      → Describes (p ∷ ps) (c ∷ cs)

match_star-Describes :
    (p : ℕ) (ps cs : List ℕ)
    → p ≡ 42
    → ((ds : List ℕ) → match_pattern ps ds ≡ true → Describes ps ds)
    → match_star (match_pattern ps) cs ≡ true
    → Describes (p ∷ ps) cs
unfolding match_star
match_star-Describes p ps [] e rest h = star_ends e (rest [] h)
match_star-Describes p ps (c ∷ cs) e rest h = elim (Bool-cases (match_pattern ps (c ∷ cs))) [
  | inl b ↦ star_ends e (rest (c ∷ cs) b)
  | inr b ↦ star_takes e (ground arith) (match_star-Describes p ps cs e rest (ground arith))
]

match_dot-Describes :
    (p : ℕ) (ps cs : List ℕ)
    → p ≡ 63
    → ((ds : List ℕ) → match_pattern ps ds ≡ true → Describes ps ds)
    → match_dot (match_pattern ps) cs ≡ true
    → Describes (p ∷ ps) cs
unfolding match_dot
match_dot-Describes p ps [] e rest h = ground arith
match_dot-Describes p ps (c ∷ cs) e rest h = one e (ground arith) (rest cs (ground arith))

match_unit-Describes :
    (p : ℕ) (ps cs : List ℕ)
    → p ≢ 42
    → p ≢ 63
    → ((ds : List ℕ) → match_pattern ps ds ≡ true → Describes ps ds)
    → match_unit p (match_pattern ps) cs ≡ true
    → Describes (p ∷ ps) cs
unfolding match_unit
match_unit-Describes p ps [] n m rest h = ground arith
match_unit-Describes p ps (c ∷ cs) n m rest h =
    itself n m ((nat_beq_iff c p).0 (ground arith)) (rest cs (ground arith))

match_pattern-Describes : (ps cs : List ℕ) → match_pattern ps cs ≡ true → Describes ps cs
unfolding match_pattern
match_pattern-Describes [] [] h = stop
match_pattern-Describes [] (c ∷ cs) h = ground arith
match_pattern-Describes (p ∷ ps) cs h = elim (Bool-cases (nat_beq p 42)) [
  | inl e ↦
      match_star-Describes p ps cs ((nat_beq_iff p 42).0 e) (match_pattern-Describes ps)
        (ground arith)
  | inr n ↦ elim (Bool-cases (nat_beq p 63)) [
    | inl e ↦
        match_dot-Describes p ps cs ((nat_beq_iff p 63).0 e) (match_pattern-Describes ps)
          (ground arith)
    | inr m ↦
        match_unit-Describes p ps cs (ground arith) (ground arith) (match_pattern-Describes ps)
          (ground arith)
  ]
]

match_star-rest : (rest : List ℕ → Bool) (cs : List ℕ) → rest cs ≡ true → match_star rest cs ≡ true
unfolding match_star
match_star-rest rest [] h = h
match_star-rest rest (c ∷ cs) h = ground arith

Describes-match_pattern : {ps cs : List ℕ} → Describes ps cs → match_pattern ps cs ≡ true
unfolding match_pattern match_star match_dot match_unit
Describes-match_pattern stop = refl
Describes-match_pattern (star_ends {p} {ps} {cs} e d) =
    ground (arith, Describes-match_pattern d, match_star-rest (match_pattern ps) cs)
Describes-match_pattern (star_takes {p} {c} {ps} {cs} e dot d) =
    ground (arith, Describes-match_pattern d, nat_beq_iff p 42)
Describes-match_pattern (one {p} {c} {ps} {cs} e dot d) =
    ground (arith, Describes-match_pattern d, nat_beq_iff p 42, nat_beq_iff p 63)
Describes-match_pattern (itself {p} {c} {ps} {cs} n m e d) =
    ground (arith, Describes-match_pattern d, nat_beq_iff p 42, nat_beq_iff p 63, nat_beq_iff c p)

match_pattern_lem : (ps cs : List ℕ) → (match_pattern ps cs ≡ true) ↔ Describes ps cs
match_pattern_lem ps cs = (match_pattern-Describes ps cs, λ d. Describes-match_pattern d)

-- The texts of a pattern, from the units of a text and the lower case of it.
abbrev pub IsMatch : (String → List ℕ) → (String → String) → String → String → Type 0
IsMatch units to_lower_case pattern_text s =
    (pattern_text ≡ "*")
    ⊎ (((units pattern_text ≡ []) × (units s ≡ []))
        ⊎ ((units pattern_text ≢ [])
            × Describes (units (to_lower_case pattern_text)) (units (to_lower_case s))))

is_empty_iff : {A : Type 0} (xs : List A) → (is_empty xs ≡ true) ↔ (xs ≡ [])
is_empty_iff xs = ground arith

-- A pattern matches a text exactly when it is `*`, or both are empty, or the pattern in lower case,
-- not empty, describes the text in lower case: `*` any run of units and `?` one unit, line
-- terminators excepted, and every other unit itself.
pub wildcard_match_lem :
    (units : String → List ℕ) (to_lower_case : String → String) (pattern_text s : String)
    → (wildcard_match units to_lower_case (some pattern_text) (some (text s)) ≡ true)
      ↔ IsMatch units to_lower_case pattern_text s
unfolding wildcard_match match_value match_text
wildcard_match_lem units lower p s = ground (
  arith,
  match_pattern_lem (units (lower p)) (units (lower s)),
  is_empty_iff (units p),
  is_empty_iff (units s),
  string_test.same_iff p "*",
)
