-- ===== src/Prelude/Decimal.antt =====
-- Decimal notation, as `String(n)` writes a non-negative whole number.
use Prim.Native.String
use Prim.Native.Nat.{ℕ, zero, suc, ◌+◌, ◌/◌, ◌%◌}
use Prim.Native.String.{String}
use mathlib.Core.Path.{◌≡◌, refl}
use mathlib.Core.List.{List, [], ◌∷◌, ◌++◌, map}
use aws_otel_js_instrumentat.Prelude.Tests.{ltb, if◌then◌else◌}

-- The recursion's fuel: a number has at most as many digits as its value.
digits_from : ℕ → ℕ → List ℕ
digits_from zero n = n % 10 ∷ []
digits_from (suc fuel) n =
    let more = digits_from fuel (n / 10) ++ n % 10 ∷ [] in if ltb n 10 then n ∷ [] else more

unfoldable pub decimal_digits : ℕ → List ℕ
unfolding digits_from
decimal_digits n = digits_from n n

digit_text : ℕ → String
digit_text zero = "0"
digit_text (suc zero) = "1"
digit_text (suc (suc zero)) = "2"
digit_text (suc (suc (suc zero))) = "3"
digit_text (suc (suc (suc (suc zero)))) = "4"
digit_text (suc (suc (suc (suc (suc zero))))) = "5"
digit_text (suc (suc (suc (suc (suc (suc zero)))))) = "6"
digit_text (suc (suc (suc (suc (suc (suc (suc zero))))))) = "7"
digit_text (suc (suc (suc (suc (suc (suc (suc (suc zero)))))))) = "8"
digit_text (suc (suc (suc (suc (suc (suc (suc (suc (suc _))))))))) = "9"

join_digits : List ℕ → String
join_digits [] = ""
join_digits (d ∷ ds) = String.◌++◌ (digit_text d) (join_digits ds)

unfoldable pub decimal : ℕ → String
unfolding decimal_digits join_digits digit_text
decimal n = join_digits (decimal_digits n)

-- The same as code units.
unfoldable pub decimal_codes : ℕ → List ℕ
unfolding decimal_digits
decimal_codes n = map (λ d. 48 + d) (decimal_digits n)

decimal_test :
    (decimal 0 ≡ "0") × (decimal 42 ≡ "42") × (decimal_codes 1009 ≡ 49 ∷ 48 ∷ 48 ∷ 57 ∷ [])
unfolding decimal decimal_codes
decimal_test = (refl, refl, refl)
