-- ===== src/Base/Keys.antt =====
-- A `Map` has at most one entry for a key.
use mathlib.Core.Path.{◌≡◌, refl}
use Prim.Native.String.{String}
use mathlib.Core.Option.{none}
use mathlib.Core.List.{[], ◌∷◌}
use mathlib.Core.Logic.{inl, inr}
use native.Mathlib.Omega.{arith}
use text.Mathlib.Text.{◌==◌}
use text.Mathlib.TextEquality.{eq_iff}
use coin_manage.Base.Tests.{Bool-cases}
use coin_manage.Base.Map.{Map, lookup, insert, lookup-insert}

module _ {ℓ} {V : Type ℓ} where
  unfoldable pub HasDistinctKeys : Map V → Type ℓ
  HasDistinctKeys [] = Unit
  HasDistinctKeys ((k, v) ∷ m) = (lookup k m ≡ none) × HasDistinctKeys m

  pub HasDistinctKeys-insert :
      (k : String) (v : V) (m : Map V) → HasDistinctKeys m → HasDistinctKeys (insert k v m)
  unfolding insert HasDistinctKeys
  HasDistinctKeys-insert k v [] h = (unfold lookup in refl, tt)
  HasDistinctKeys-insert k v ((j, w) ∷ m) h = elim (Bool-cases (j == k)) [
    | inl same ↦ rw same h
    | inr other ↦ rw other (
      ground (arith, lookup-insert k j v m, eq_iff k j, eq_iff j k, h.0),
      HasDistinctKeys-insert k v m h.1,
    )
  ]
