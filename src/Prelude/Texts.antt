-- ===== src/Prelude/Texts.antt =====
-- Texts as lists of UTF-16 code units, with JavaScript's operations on them.
use Prim.Native.Char.{code}
use Prim.Native.Nat.{ℕ}
use Prim.Native.String.{String}
use mathlib.Core.Path.{◌≡◌}
use mathlib.Core.Logic.{◌↔◌}
use mathlib.Core.Bool.{Bool, true, false, ◌&&◌, ◌||◌}
use mathlib.Core.List.{List, [], ◌∷◌, ◌++◌}
use native.Mathlib.Omega.{arith}
use aws_otel_js_instrumentat.Prelude.Tests.{nat_beq, nat_beq_iff, leb, Testable, if◌then◌else◌}
use aws_otel_js_instrumentat.Prelude.Lists.{length, drop, is_empty, all, All}

abbrev pub Text : Type 0
Text = List ℕ

-- The code units of a literal in ASCII.
abbrev pub codes : String → Text
codes String.[] = []
codes (String.◌∷◌ c s) = code c ∷ codes s

unfoldable pub same_units : Text → Text → Bool
same_units [] [] = true
same_units [] (d ∷ ds) = false
same_units (c ∷ cs) [] = false
same_units (c ∷ cs) (d ∷ ds) = nat_beq c d && same_units cs ds

pub same_units_iff : (s t : Text) → (same_units s t ≡ true) ↔ (s ≡ t)
unfolding same_units
same_units_iff [] [] = ground arith
same_units_iff [] (d ∷ ds) = ground arith
same_units_iff (c ∷ cs) [] = ground arith
same_units_iff (c ∷ cs) (d ∷ ds) = ground (arith, nat_beq_iff c d, same_units_iff cs ds)

instance abbrev pub text_test : Testable Text
text_test = record { same = same_units; same_iff = same_units_iff }

-- `s.startsWith(prefix)`
unfoldable pub starts_with : Text → Text → Bool
starts_with [] cs = true
starts_with (p ∷ ps) [] = false
starts_with (p ∷ ps) (c ∷ cs) = nat_beq p c && starts_with ps cs

-- `s.includes(part)`
unfoldable pub includes : Text → Text → Bool
includes part [] = is_empty part
includes part (c ∷ cs) = starts_with part (c ∷ cs) || includes part cs

-- `s.replace(part, by)`: the first occurrence.
unfoldable pub replace : Text → Text → Text → Text
replace part by [] = if is_empty part then by else []
replace part by (c ∷ cs) =
    if starts_with part (c ∷ cs) then by ++ drop (length part) (c ∷ cs) else c ∷ replace part by cs

unfoldable pub onto_first : ℕ → List Text → List Text
onto_first c [] = (c ∷ []) ∷ []
onto_first c (w ∷ ws) = (c ∷ w) ∷ ws

-- `s.split(...)` at the single units that the test accepts.
unfoldable pub split : (ℕ → Bool) → Text → List Text
unfolding onto_first
split cut [] = [] ∷ []
split cut (c ∷ cs) = let rest = split cut cs in if cut c then [] ∷ rest else onto_first c rest

-- `parts.join(separator)`
unfoldable pub join : Text → List Text → Text
join separator [] = []
join separator (w ∷ []) = w
join separator (w ∷ v ∷ ws) = w ++ (separator ++ join separator (v ∷ ws))

abbrev pub Lacks : (ℕ → Bool) → Text → Type 0
Lacks cut = All (λ c. cut c ≡ false)

-- What `String.prototype.trim` removes.
unfoldable pub is_white_space : ℕ → Bool
is_white_space c =
    leb 9 c && leb c 13
    || nat_beq c 32
    || nat_beq c 160
    || nat_beq c 5760
    || leb 8192 c && leb c 8202
    || nat_beq c 8232
    || nat_beq c 8233
    || nat_beq c 8239
    || nat_beq c 8287
    || nat_beq c 12288
    || nat_beq c 65279

-- `s.trimStart()`
unfoldable pub trim_start : Text → Text
trim_start [] = []
trim_start (c ∷ cs) = if is_white_space c then trim_start cs else c ∷ cs

unfoldable pub trim_end : Text → Text
trim_end [] = []
trim_end (c ∷ cs) = if all is_white_space (c ∷ cs) then [] else c ∷ trim_end cs

-- `s.trim()`
unfoldable pub trim : Text → Text
unfolding trim_start trim_end
trim s = trim_end (trim_start s)
