-- ===== src/Base/Map.antt =====
-- A JavaScript `Map` with string keys: its entries in the order of insertion. `set` on a key that
-- is there writes in place.
use Prim.Native.String.{String}
use mathlib.Core.Path.{◌≡◌, refl}
use mathlib.Core.Option.{Option, none, some}
use mathlib.Core.List.{List, [], ◌∷◌}
use native.Mathlib.Omega.{arith}
use text.Mathlib.Text.{◌==◌}
use text.Mathlib.TextEquality.{eq_iff}
use mathlib.Core.Path.{subst}
use mathlib.Core.Logic.{inl, inr}
use coin_manage.Base.Tests.{Bool-cases, if◌then◌else◌}
use coin_manage.Base.Int.{ℤ, pos, ◌+ℤ◌, ◌≤ℤ◌, int_laws}

abbrev pub Map {ℓ} : Type ℓ → Type ℓ
Map V = List (String × V)

module _ {ℓ} {V : Type ℓ} where
  -- `entries.set(key, value)`
  unfoldable pub insert : String → V → Map V → Map V
  insert key value [] = (key, value) ∷ []
  insert key value ((at, old) ∷ entries) =
      let behind = insert key value entries in
      if at == key then (at, value) ∷ entries else (at, old) ∷ behind

  -- `entries.delete(key)`; a `Map` has at most one entry for a key
  unfoldable pub erase : String → Map V → Map V
  erase key [] = []
  erase key ((at, old) ∷ entries) =
      let behind = erase key entries in if at == key then behind else (at, old) ∷ behind

  -- `entries.get(key)`
  unfoldable pub lookup : String → Map V → Option V
  lookup key [] = none
  lookup key ((at, value) ∷ entries) =
      let behind = lookup key entries in if at == key then some value else behind

  -- `Array.from(entries.values())`
  unfoldable pub values : Map V → List V
  values [] = []
  values ((at, value) ∷ entries) = value ∷ values entries

  pub lookup-insert :
      (key other : String) (value : V) (entries : Map V)
      → lookup other (insert key value entries)
        ≡ (if key == other then some value else lookup other entries)
  unfolding insert lookup
  lookup-insert key other value [] = refl
  lookup-insert key other value ((at, old) ∷ entries) = ground (
    arith,
    lookup-insert key other value entries,
    eq_iff at other,
    eq_iff at key,
    eq_iff key other,
  )

  pub lookup-insert_self : (k : String) (v : V) (m : Map V) → lookup k (insert k v m) ≡ some v
  lookup-insert_self k v m = ground (arith, lookup-insert k k v m, eq_iff k k)

  pub lookup-erase :
      (k j : String) (m : Map V) → lookup j (erase k m) ≡ (if k == j then none else lookup j m)
  unfolding lookup erase
  lookup-erase k j [] = ground arith
  lookup-erase k j ((i, w) ∷ m) =
      ground (arith, eq_iff k j, eq_iff i k, eq_iff i j, lookup-erase k j m)

  -- The sum of a figure over the values.
  unfoldable pub sum_of : (V → ℤ) → Map V → ℤ
  sum_of f [] = pos 0
  sum_of f ((j, v) ∷ m) = f v +ℤ sum_of f m

  pub sum_of-insert :
      (f : V → ℤ) (k : String) (v old : V) (m : Map V)
      → lookup k m ≡ some old
      → sum_of f (insert k v m) +ℤ f old ≡ sum_of f m +ℤ f v
  unfolding lookup insert sum_of
  sum_of-insert f k v old [] e = ground arith
  sum_of-insert f k v old ((i, w) ∷ m) e = grind (int_laws, sum_of-insert f k v old m)

  pub sum_of-insert_new :
      (f : V → ℤ) (k : String) (v : V) (m : Map V)
      → lookup k m ≡ none
      → sum_of f (insert k v m) ≡ sum_of f m +ℤ f v
  unfolding lookup insert sum_of
  sum_of-insert_new f k v [] e = omega int_laws
  sum_of-insert_new f k v ((i, w) ∷ m) e = grind (int_laws, sum_of-insert_new f k v m)

  -- Every value of the map has the property.
  unfoldable pub Every {κ} : (V → Type κ) → Map V → Type κ
  Every P [] = Unit
  Every P ((j, v) ∷ m) = P v × Every P m

  pub Every-lookup {κ} :
      (P : V → Type κ) (k : String) (v : V) (m : Map V) → Every P m → lookup k m ≡ some v → P v
  unfolding lookup Every
  Every-lookup P k v [] h e = cc
  Every-lookup P k v ((j, w) ∷ m) h e = elim (Bool-cases (j == k)) [
    | inl same ↦ subst P (cc (same, e)) h.0
    | inr other ↦ Every-lookup P k v m h.1 (rw other at e)
  ]

  pub Every-insert {κ} :
      (P : V → Type κ) (k : String) (v : V) (m : Map V) → Every P m → P v → Every P (insert k v m)
  unfolding insert Every
  Every-insert P k v [] h p = (p, tt)
  Every-insert P k v ((j, w) ∷ m) h p = elim (Bool-cases (j == k)) [
    | inl same ↦ rw same (p, h.1)
    | inr other ↦ rw other (h.0, Every-insert P k v m h.1 p)
  ]

  pub Every-weaken {κ μ} :
      (P : V → Type κ) (Q : V → Type μ) (m : Map V) → ((v : V) → P v → Q v) → Every P m → Every Q m
  unfolding Every
  Every-weaken P Q [] f h = tt
  Every-weaken P Q ((j, w) ∷ m) f h = (f w h.0, Every-weaken P Q m f h.1)

  pub sum_of-nonneg : (f : V → ℤ) (m : Map V) → Every (λ v. pos 0 ≤ℤ f v) m → pos 0 ≤ℤ sum_of f m
  unfolding sum_of Every
  sum_of-nonneg f [] h = omega arith
  sum_of-nonneg f ((j, w) ∷ m) h = omega (int_laws, sum_of-nonneg f m h.1)

  -- One value is at most the sum, where none is negative.
  pub le-sum_of :
      (f : V → ℤ) (k : String) (v : V) (m : Map V)
      → Every (λ v. pos 0 ≤ℤ f v) m
      → lookup k m ≡ some v
      → f v ≤ℤ sum_of f m
  unfolding lookup sum_of Every
  le-sum_of f k v [] h e = cc
  le-sum_of f k v ((j, w) ∷ m) h e = elim (Bool-cases (j == k)) [
    | inl same ↦
        let q : w ≡ v = cc (same, e) in
        subst (λ x. f x ≤ℤ f w +ℤ sum_of f m) q (omega (int_laws, sum_of-nonneg f m h.1))
    | inr other ↦ omega (int_laws, le-sum_of f k v m h.1 (rw other at e), h.0)
  ]
