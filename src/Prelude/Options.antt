-- ===== src/Prelude/Options.antt =====
-- Values that may be missing.
use mathlib.Core.Bool.{Bool, true, false}
use mathlib.Core.Path.{◌≡◌, refl}
use mathlib.Core.Option.{Option, none, some}

-- `a ?? b`
unfoldable pub or_else {ℓ} : {A : Type ℓ} → Option A → Option A → Option A
or_else none b = b
or_else (some v) b = some v

pub or_else-none {ℓ} : {A : Type ℓ} → (a : Option A) → or_else a none ≡ a
unfolding or_else
or_else-none none = refl
or_else-none (some v) = refl

-- `a !== undefined`
abbrev pub is_present {ℓ} : {A : Type ℓ} → Option A → Bool
is_present none = false
is_present (some v) = true

abbrev pub if_present {ℓ κ} : {A : Type ℓ} {B : Type κ} → (A → B) → Option A → Option B
if_present f none = none
if_present f (some v) = some (f v)

infixl 5 ◌>>=◌
-- `value?.rest`, and a call that may throw followed by the rest.
abbrev pub ◌>>=◌ {ℓ κ} : {A : Type ℓ} {B : Type κ} → Option A → (A → Option B) → Option B
none >>= rest = none
some value >>= rest = rest value
