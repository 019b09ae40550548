-- ===== src/Prelude/Sort.antt =====
-- JavaScript's `sort` by a comparator, which is stable: an insertion sort that puts an element before
-- the equal ones after it.
use mathlib.Core.Path.{◌≡◌, refl}
use mathlib.Core.Bool.{Bool, true, false}
use mathlib.Core.List.{List, [], ◌∷◌, ◌++◌, Perm}
use mathlib.Core.List.Perm
use native.Mathlib.Omega.{arith}
use Prim.Native.Nat.{ℕ, zero, suc, ◌+◌}
use aws_otel_js_instrumentat.Prelude.Tests.{if◌then◌else◌, if-cases}
use aws_otel_js_instrumentat.Prelude.Lists.{All, take, drop}

module _ {ℓ} {A : Type ℓ} (leq : A → A → Bool) where
  unfoldable pub insert_by : A → List A → List A
  insert_by x [] = x ∷ []
  insert_by x (y ∷ ys) = if leq x y then x ∷ y ∷ ys else y ∷ insert_by x ys

  unfoldable pub sort_by : List A → List A
  sort_by [] = []
  sort_by (x ∷ xs) = insert_by x (sort_by xs)

  abbrev pub IsSortedBy : List A → Type 0
  IsSortedBy [] = Unit {0}
  IsSortedBy (x ∷ xs) = All (λ y. leq x y ≡ true) xs × IsSortedBy xs

  insert_by-perm : (x : A) (xs : List A) → Perm (insert_by x xs) (x ∷ xs)
  unfolding insert_by
  insert_by-perm x [] = Perm.refl (x ∷ [])
  insert_by-perm x (y ∷ ys) =
      if-cases (λ zs. Perm zs (x ∷ y ∷ ys)) (leq x y) (λ _. Perm.refl (x ∷ y ∷ ys))
        λ _. Perm.trans (Perm.cons y (insert_by-perm x ys)) (Perm.swap x y ys)

  pub sort_by-perm : (xs : List A) → Perm (sort_by xs) xs
  unfolding sort_by
  sort_by-perm [] = Perm.refl []
  sort_by-perm (x ∷ xs) = Perm.trans (insert_by-perm x (sort_by xs)) (Perm.cons x (sort_by-perm xs))

-- What holds of all elements does not depend on the order.
module _ {ℓ κ} {A : Type ℓ} (P : A → Type κ) (leq : A → A → Bool) where
  insert_by-All : (x : A) (xs : List A) → All P (insert_by leq x xs) → P x × All P xs
  unfolding insert_by
  insert_by-All x [] h = (h.0, tt)
  insert_by-All x (y ∷ ys) h =
      if-cases (λ zs. All P zs → P x × All P (y ∷ ys)) (leq x y) (λ _ k. (k.0, k.1))
        (λ _ k. let (q, r) = insert_by-All x ys k.1 in (q, (k.0, r))) h

  pub All-of-sort_by : (xs : List A) → All P (sort_by leq xs) → All P xs
  unfolding sort_by
  All-of-sort_by [] h = tt
  All-of-sort_by (x ∷ xs) h =
      let (q, r) = insert_by-All x (sort_by leq xs) h in (q, All-of-sort_by xs r)

-- What a measure adds up to does not depend on the order.
module _ {ℓ} {A : Type ℓ} (f : A → ℕ) where
  abbrev pub total : List A → ℕ
  total [] = 0
  total (x ∷ xs) = f x + total xs

  total-insert_by :
      (leq : A → A → Bool) (x : A) (xs : List A) → total (insert_by leq x xs) ≡ f x + total xs
  unfolding insert_by
  total-insert_by leq x [] = refl
  total-insert_by leq x (y ∷ ys) = ground (arith, total-insert_by leq x ys)

  pub total-sort_by : (leq : A → A → Bool) (xs : List A) → total (sort_by leq xs) ≡ total xs
  unfolding sort_by
  total-sort_by leq [] = refl
  total-sort_by leq (x ∷ xs) =
      omega (arith, total-insert_by leq x (sort_by leq xs), total-sort_by leq xs)

  pub total-append : (xs ys : List A) → total (xs ++ ys) ≡ total xs + total ys
  total-append [] ys = omega arith
  total-append (x ∷ xs) ys = omega (arith, total-append xs ys)

-- Sorting by `leq` sorts by any coarser transitive order `le`.
module _ {ℓ} {A : Type ℓ} (leq le : A → A → Bool)
    (first : (x y : A) → leq x y ≡ true → le x y ≡ true)
    (second : (x y : A) → leq x y ≡ false → le y x ≡ true)
    (trans_le : (x y z : A) → le x y ≡ true → le y z ≡ true → le x z ≡ true) where
  later-All :
      (x y : A) (ys : List A)
      → le x y ≡ true
      → All (λ z. le y z ≡ true) ys
      → All (λ z. le x z ≡ true) ys
  later-All x y [] h a = tt
  later-All x y (z ∷ zs) h a = (trans_le x y z h a.0, later-All x y zs h a.1)

  insert-All :
      (w x : A) (ys : List A)
      → le w x ≡ true
      → All (λ z. le w z ≡ true) ys
      → All (λ z. le w z ≡ true) (insert_by leq x ys)
  unfolding insert_by
  insert-All w x [] h a = (h, tt)
  insert-All w x (y ∷ ys) h a =
      if-cases (All (λ z. le w z ≡ true)) (leq x y) (λ _. (h, a))
        λ _. (a.0, insert-All w x ys h a.1)

  insert_by-IsSortedBy :
      (x : A) (ys : List A) → IsSortedBy le ys → IsSortedBy le (insert_by leq x ys)
  unfolding insert_by
  insert_by-IsSortedBy x [] h = (tt, tt)
  insert_by-IsSortedBy x (y ∷ ys) h =
      if-cases (IsSortedBy le) (leq x y)
        (λ b. ((first x y b, later-All x y ys (first x y b) h.0), h))
        λ b. (insert-All y x ys (second x y b) h.0, insert_by-IsSortedBy x ys h.1)

  pub sort_by-IsSortedBy : (xs : List A) → IsSortedBy le (sort_by leq xs)
  unfolding sort_by
  sort_by-IsSortedBy [] = tt
  sort_by-IsSortedBy (x ∷ xs) = insert_by-IsSortedBy x (sort_by leq xs) (sort_by-IsSortedBy xs)

module _ {ℓ} {A : Type ℓ} (le : A → A → Bool) where
  All-drop : (P : A → Type 0) (n : ℕ) (xs : List A) → All P xs → All P (drop n xs)
  All-drop P zero xs h = h
  All-drop P (suc n) [] h = tt
  All-drop P (suc n) (x ∷ xs) h = All-drop P n xs h.1

  -- Of a sorted list, everything taken comes before everything dropped.
  pub take-before-drop :
      (n : ℕ) (xs : List A)
      → IsSortedBy le xs
      → All (λ x. All (λ y. le x y ≡ true) (drop n xs)) (take n xs)
  take-before-drop zero xs h = tt
  take-before-drop (suc n) [] h = tt
  take-before-drop (suc n) (x ∷ xs) h =
      (All-drop (λ y. le x y ≡ true) n xs h.0, take-before-drop n xs h.1)
