-- ===== src/Base/Lists.antt =====
-- Lists measured by native numbers, under the library's names, and stable sorting.
use Prim.Native.Nat.{ℕ, zero, suc, ◌+◌, min}
use mathlib.Core.Path.{◌≡◌, refl}
use mathlib.Core.Bool.{Bool, false, ◌||◌}
use mathlib.Core.List.{List, [], ◌∷◌, ◌++◌}
use native.Mathlib.Omega.{arith}
use coin_manage.Base.Tests.{if◌then◌else◌}

module _ {ℓ} {A : Type ℓ} where
  abbrev pub length : List A → ℕ
  length [] = 0
  length (x ∷ xs) = suc (length xs)

  abbrev pub take : ℕ → List A → List A
  take zero xs = []
  take (suc n) [] = []
  take (suc n) (x ∷ xs) = x ∷ take n xs

  -- `xs.filter(p)`
  abbrev pub filter : (A → Bool) → List A → List A
  filter p [] = []
  filter p (x ∷ xs) = if p x then x ∷ filter p xs else filter p xs

  -- `xs.some(p)`
  abbrev pub any : (A → Bool) → List A → Bool
  any p [] = false
  any p (x ∷ xs) = p x || any p xs

  -- A predicate of every element; it computes to tuples.
  abbrev pub All {κ} : (A → Type κ) → List A → Type κ
  All P [] = Unit
  All P (x ∷ xs) = P x × All P xs

  pub length-append : (xs ys : List A) → length (xs ++ ys) ≡ length xs + length ys
  length-append [] ys = omega arith
  length-append (x ∷ xs) ys = omega (arith, length-append xs ys)

  pub length-take : (n : ℕ) (xs : List A) → length (take n xs) ≡ min n (length xs)
  length-take zero xs = omega arith
  length-take (suc n) [] = omega arith
  length-take (suc n) (x ∷ xs) = omega (arith, length-take n xs)

  -- `insert` and `sort` are `Array.prototype.sort` (it is stable): `le a b` says that `a` may
  -- stand before `b`.
  abbrev pub sort_insert : (A → A → Bool) → A → List A → List A
  sort_insert le x [] = x ∷ []
  sort_insert le x (y ∷ ys) = if le x y then x ∷ y ∷ ys else y ∷ sort_insert le x ys

  abbrev pub sort : (A → A → Bool) → List A → List A
  sort le [] = []
  sort le (x ∷ xs) = sort_insert le x (sort le xs)

  pub All-sort_insert {κ} :
      (P : A → Type κ) (le : A → A → Bool) (x : A) (xs : List A)
      → P x
      → All P xs
      → All P (sort_insert le x xs)
  All-sort_insert P le x [] p h = (p, h)
  All-sort_insert P le x (y ∷ ys) p h = ground (arith, All-sort_insert P le x ys p h.1)

  pub All-sort {κ} :
      (P : A → Type κ) (le : A → A → Bool) (xs : List A) → All P xs → All P (sort le xs)
  All-sort P le [] h = h
  All-sort P le (x ∷ xs) h = All-sort_insert P le x (sort le xs) h.0 (All-sort P le xs h.1)

  pub All-take {κ} : (P : A → Type κ) (n : ℕ) (xs : List A) → All P xs → All P (take n xs)
  All-take P zero xs h = tt
  All-take P (suc n) [] h = h
  All-take P (suc n) (x ∷ xs) h = (h.0, All-take P n xs h.1)

  pub length-sort_insert :
      (le : A → A → Bool) (x : A) (xs : List A) → length (sort_insert le x xs) ≡ suc (length xs)
  length-sort_insert le x [] = refl
  length-sort_insert le x (y ∷ ys) = ground (arith, length-sort_insert le x ys)

  pub length-sort : (le : A → A → Bool) (xs : List A) → length (sort le xs) ≡ length xs
  length-sort le [] = refl
  length-sort le (x ∷ xs) = ground (arith, length-sort_insert le x (sort le xs), length-sort le xs)
