-- ===== src/Prelude/Splits.antt =====
-- Splitting and joining texts, one against the other.
use Prim.Native.Nat.{ℕ}
use mathlib.Core.Path.{◌≡◌, refl, ap, sym, ◌∙◌}
use mathlib.Core.Logic.{inl, inr}
use mathlib.Core.Bool.{Bool, true, false}
use mathlib.Core.List.{List, [], ◌∷◌, ◌++◌, append_assoc}
use native.Mathlib.Omega.{arith}
use aws_otel_js_instrumentat.Prelude.Tests.{
  nat_beq, nat_beq_iff, if◌then◌else◌, Bool-cases, if-cases,
}
use aws_otel_js_instrumentat.Prelude.Lists.{all, All, All-append}
use aws_otel_js_instrumentat.Prelude.Texts.{
  Text, starts_with, replace, onto_first, split, join, Lacks,
}

-- A split finds the parts of a join again, where no part has a separator.
pub split-append :
    (cut : ℕ → Bool) (w : Text) (c : ℕ) (rest : Text)
    → Lacks cut w
    → cut c ≡ true
    → split cut (w ++ c ∷ rest) ≡ w ∷ split cut rest
unfolding split
split-append cut [] c rest l h = ground arith
split-append cut (d ∷ w) c rest l h = ground (arith, split-append cut w c rest l.1 h)

pub split_one : (cut : ℕ → Bool) (w : Text) → Lacks cut w → split cut w ≡ w ∷ []
unfolding split
split_one cut [] l = refl
split_one cut (d ∷ w) l = ground (arith, split_one cut w l.1)

pub split-join :
    (cut : ℕ → Bool) (c : ℕ) (w : Text) (ws : List Text)
    → cut c ≡ true
    → All (Lacks cut) (w ∷ ws)
    → split cut (join (c ∷ []) (w ∷ ws)) ≡ w ∷ ws
unfolding join
split-join cut c w [] h l = split_one cut w l.0
split-join cut c w (v ∷ ws) h l =
    split-append cut w c (join (c ∷ []) (v ∷ ws)) l.0 h ∙ ap (◌∷◌ w) (split-join cut c v ws h l.1)

join-onto_first :
    (separator : Text) (c : ℕ) (ws : List Text)
    → join separator (onto_first c ws) ≡ c ∷ join separator ws
unfolding join onto_first
join-onto_first separator c [] = refl
join-onto_first separator c (w ∷ []) = refl
join-onto_first separator c (w ∷ v ∷ ws) = refl

pub split_cons :
    (cut : ℕ → Bool) (s : Text) → (w : Text) × (ws : List Text) × (split cut s ≡ w ∷ ws)
unfolding split
split_cons cut [] = ([], [], refl)
split_cons cut (c ∷ s) = elim (Bool-cases (cut c)) [
  | inl b ↦ ([], split cut s, ground arith)
  | inr b ↦ let (w, ws, e) = split_cons cut s in (c ∷ w, ws, ground (arith, ap (onto_first c) e))
]

-- A text cut at a separator, whatever stands before it.
pub split-at :
    (cut : ℕ → Bool) (s : Text) (c : ℕ) (rest : Text)
    → cut c ≡ true
    → split cut (s ++ c ∷ rest) ≡ split cut s ++ split cut rest
unfolding split onto_first
split-at cut [] c rest h = ground arith
split-at cut (d ∷ s) c rest h =
    let (w, ws, e) = split_cons cut s in ground (arith, split-at cut s c rest h, e)

-- Joining what a split found gives the text again.
pub join-split : (c : ℕ) (s : Text) → join (c ∷ []) (split (nat_beq c) s) ≡ s
unfolding join split
join-split c [] = refl
join-split c (d ∷ s) =
    let (w, ws, e) = split_cons (nat_beq c) s in
    ground
      (arith, join-split c s, join-onto_first (c ∷ []) d (split (nat_beq c) s), nat_beq_iff c d, e)

onto_first-Lacks :
    (cut : ℕ → Bool) (c : ℕ) (ws : List Text)
    → cut c ≡ false
    → All (Lacks cut) ws
    → All (Lacks cut) (onto_first c ws)
unfolding onto_first
onto_first-Lacks cut c [] h l = ((h, tt), tt)
onto_first-Lacks cut c (w ∷ ws) h l = ((h, l.0), l.1)

pub split-Lacks : (cut : ℕ → Bool) (s : Text) → All (Lacks cut) (split cut s)
unfolding split
split-Lacks cut [] = (tt, tt)
split-Lacks cut (c ∷ s) =
    if-cases (All (Lacks cut)) (cut c) (λ b. (tt, split-Lacks cut s))
      (λ b. onto_first-Lacks cut c (split cut s) b (split-Lacks cut s))

-- A text of units that pass a test lacks a unit that does not.
pub all-Lacks :
    (p : ℕ → Bool) (unit : ℕ) (s : Text) → p unit ≡ false → all p s ≡ true → Lacks (nat_beq unit) s
all-Lacks p unit [] h a = tt
all-Lacks p unit (c ∷ s) h a = (
  elim (Bool-cases (nat_beq unit c)) [
    | inl b ↦ absurd (ground (arith, ap p {x = unit} {y = c} ((nat_beq_iff unit c).0 b)))
    | inr b ↦ b
  ],
  all-Lacks p unit s h (ground arith),
)

pub join-Lacks :
    (cut : ℕ → Bool) (separator : Text) (ws : List Text)
    → Lacks cut separator
    → All (Lacks cut) ws
    → Lacks cut (join separator ws)
unfolding join
join-Lacks cut separator [] h l = tt
join-Lacks cut separator (w ∷ []) h l = l.0
join-Lacks cut separator (w ∷ v ∷ ws) h l =
    All-append _ w (separator ++ join separator (v ∷ ws)) l.0
      (All-append _ separator (join separator (v ∷ ws)) h (join-Lacks cut separator (v ∷ ws) h l.1))

starts_with-absent :
    (before after s : Text) (c : ℕ)
    → Lacks (nat_beq c) s
    → starts_with (before ++ c ∷ after) s ≡ false
unfolding starts_with
starts_with-absent [] after [] c l = refl
starts_with-absent [] after (d ∷ s) c l = ground arith
starts_with-absent (b ∷ before) after [] c l = refl
starts_with-absent (b ∷ before) after (d ∷ s) c l =
    ground (arith, starts_with-absent before after s c l.1)

-- Nothing is replaced where a unit of the part does not occur.
pub replace_absent :
    (before after by s : Text) (c : ℕ)
    → Lacks (nat_beq c) s
    → replace (before ++ c ∷ after) by s ≡ s
unfolding replace
replace_absent [] after by [] c l = refl
replace_absent (b ∷ before) after by [] c l = refl
replace_absent before after by (d ∷ s) c l =
    ground
      (arith, starts_with-absent before after (d ∷ s) c l, replace_absent before after by s c l.1)

-- `s.split(unit).join(by)` for each unit of a text in turn.
unfoldable pub substitute : ℕ → Text → Text → Text
substitute unit by [] = []
substitute unit by (c ∷ cs) = (if nat_beq unit c then by else c ∷ []) ++ substitute unit by cs

pub join-split-substitute :
    (unit : ℕ) (by s : Text) → join by (split (nat_beq unit) s) ≡ substitute unit by s
unfolding join split substitute
join-split-substitute unit by [] = refl
join-split-substitute unit by (c ∷ s) =
    let (w, ws, e) = split_cons (nat_beq unit) s in
    ground
      (arith, join-split-substitute unit by s, join-onto_first by c (split (nat_beq unit) s), e)

pub substitute-append :
    (unit : ℕ) (by s t : Text)
    → substitute unit by (s ++ t) ≡ substitute unit by s ++ substitute unit by t
unfolding substitute
substitute-append unit by [] t = refl
substitute-append unit by (c ∷ s) t =
    ap (λ (rest : Text). (if nat_beq unit c then by else c ∷ []) ++ rest)
      (substitute-append unit by s t)
    ∙ sym (append_assoc (if nat_beq unit c then by else c ∷ []) _ _)
