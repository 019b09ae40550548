-- ===== src/Prelude/Assoc.antt =====
-- JavaScript's `Map` and `Set`: keys in insertion order, each at most once. An insert at a key that
-- is present keeps its place.
use Prim.Native.Nat.{suc}
use mathlib.Core.Path.{subst, sym, ◌∙◌, ◌≡◌, refl}
use mathlib.Core.Logic.{◌≢◌, inl, inr}
use mathlib.Core.Bool.{Bool, false, ◌||◌}
use mathlib.Core.List.{List, [], ◌∷◌}
use mathlib.Core.Option.{Option, none, some}
use native.Mathlib.Omega.{arith}
use aws_otel_js_instrumentat.Prelude.Tests.{Testable, ◌==◌, if◌then◌else◌, Bool-cases}
use aws_otel_js_instrumentat.Prelude.Lists.{length}

module _ {ℓ κ} {K : Type ℓ} ⦃e : Testable K⦄ {V : Type κ} where
  -- `map.has(key)`
  unfoldable pub has_key : K → List (K × V) → Bool
  has_key key [] = false
  has_key key ((held, value) ∷ entries) = held == key || has_key key entries

  -- `map.delete(key)`
  unfoldable pub erase : K → List (K × V) → List (K × V)
  erase key [] = []
  erase key ((held, value) ∷ entries) =
      if held == key then entries else (held, value) ∷ erase key entries

  -- `map.set(key, value)`
  unfoldable pub insert : K → V → List (K × V) → List (K × V)
  insert key value [] = (key, value) ∷ []
  insert key value ((held, old) ∷ entries) =
      if held == key then (held, value) ∷ entries else (held, old) ∷ insert key value entries

  -- `map.get(key)`
  unfoldable pub lookup : K → List (K × V) → Option V
  lookup key [] = none
  lookup key ((held, value) ∷ entries) = if held == key then some value else lookup key entries

  -- Each key at most once.
  abbrev pub IsMap : List (K × V) → Type 0
  IsMap [] = Unit
  IsMap ((k, v) ∷ m) = (has_key k m ≡ false) × IsMap m

  pub lookup-insert :
      (key other : K) (value : V) (entries : List (K × V))
      → lookup other (insert key value entries)
        ≡ (if key == other then some value else lookup other entries)
  unfolding insert lookup
  lookup-insert key other value [] = refl
  lookup-insert key other value ((held, old) ∷ entries) = ground (
    arith,
    lookup-insert key other value entries,
    e.same_iff held other,
    e.same_iff held key,
    e.same_iff key other,
  )

  pub has_key-insert :
      (k j : K) (v : V) (m : List (K × V)) → has_key j (insert k v m) ≡ (k == j || has_key j m)
  unfolding has_key insert
  has_key-insert k j v [] = refl
  has_key-insert k j v ((i, w) ∷ m) =
      ground (arith, e.same_iff k j, e.same_iff i k, e.same_iff i j, has_key-insert k j v m)

  pub insert-IsMap : (k : K) (v : V) (m : List (K × V)) → IsMap m → IsMap (insert k v m)
  unfolding insert has_key
  insert-IsMap k v [] h = (refl, tt)
  insert-IsMap k v ((i, w) ∷ m) h =
      ground (arith, e.same_iff i k, e.same_iff k i, has_key-insert k i v m, insert-IsMap k v m h.1)

  pub has_key-lookup : (k : K) (m : List (K × V)) → lookup k m ≡ none → has_key k m ≡ false
  unfolding lookup has_key
  has_key-lookup k [] h = refl
  has_key-lookup k ((i, w) ∷ m) h = ground (arith, has_key-lookup k m)

  pub lookup-has_key : (k : K) (m : List (K × V)) → has_key k m ≡ false → lookup k m ≡ none
  unfolding lookup has_key
  lookup-has_key k [] h = refl
  lookup-has_key k ((i, w) ∷ m) h = ground (arith, lookup-has_key k m)

  pub lookup-erase :
      (k j : K) (m : List (K × V))
      → IsMap m
      → lookup j (erase k m) ≡ (if k == j then none else lookup j m)
  unfolding lookup erase
  lookup-erase k j [] h = ground arith
  lookup-erase k j ((i, w) ∷ m) h = ground (
    arith,
    e.same_iff k j,
    e.same_iff i k,
    e.same_iff i j,
    lookup-erase k j m h.1,
    lookup-has_key i m h.0,
  )

  pub has_key-erase_ne :
      (k j : K) (m : List (K × V)) → has_key j m ≡ false → has_key j (erase k m) ≡ false
  unfolding erase has_key
  has_key-erase_ne k j [] h = refl
  has_key-erase_ne k j ((i, w) ∷ m) h = ground (arith, has_key-erase_ne k j m)

  pub has_key-erase_other :
      (k j : K) (m : List (K × V)) → k == j ≡ false → has_key j (erase k m) ≡ has_key j m
  unfolding erase has_key
  has_key-erase_other k j [] ne = refl
  has_key-erase_other k j ((i, w) ∷ m) ne =
      ground (arith, has_key-erase_other k j m ne, e.same_iff i k, e.same_iff i j, e.same_iff k j)

  pub erase-IsMap : (k : K) (m : List (K × V)) → IsMap m → IsMap (erase k m)
  unfolding erase has_key
  erase-IsMap k [] h = tt
  erase-IsMap k ((i, w) ∷ m) h = ground (arith, erase-IsMap k m h.1, has_key-erase_ne k i m h.0)

  pub length-insert :
      (k : K) (v : V) (m : List (K × V))
      → length (insert k v m) ≡ (if has_key k m then length m else suc (length m))
  unfolding insert has_key
  length-insert k v [] = refl
  length-insert k v ((i, w) ∷ m) = ground (arith, length-insert k v m)

  pub lookup-insert_same : (k : K) (v : V) (m : List (K × V)) → lookup k (insert k v m) ≡ some v
  lookup-insert_same k v m = ground (arith, e.same_iff k k, lookup-insert k k v m)

  pub lookup-insert_other :
      (k j : K) (v : V) (m : List (K × V)) → k ≢ j → lookup j (insert k v m) ≡ lookup j m
  lookup-insert_other k j v m ne = ground (arith, e.same_iff k j, lookup-insert k j v m)

  -- What a lookup after an insert can find.
  pub lookup-insert-cases {μ} :
      (P : K → V → Type μ) (k j : K) (v w : V) (m : List (K × V))
      → P k v
      → (k ≢ j → lookup j m ≡ some w → P j w)
      → lookup j (insert k v m) ≡ some w
      → P j w
  lookup-insert-cases P k j v w m new old h = elim (Bool-cases (k == j)) [
    | inl b ↦
        subst (λ i. P i w) ((e.same_iff k j).0 b)
          (subst (P k) (ground (arith, e.same_iff k j, lookup-insert k j v m)) new)
    | inr b ↦
        old (λ q. ground (arith, e.same_iff k j))
          (sym (lookup-insert_other k j v m (ground (arith, e.same_iff k j))) ∙ h)
  ]
