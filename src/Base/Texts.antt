-- ===== src/Base/Texts.antt =====
-- What the program does with JavaScript strings beside comparing them for equality.
use Prim.Native.Nat.{ℕ, zero, suc, compare, Ordering}
use Prim.Native.Char.{code}
use Prim.Native.String.{String, ◌++◌ as append}
use mathlib.Core.Bool.{Bool, true, false, not}
use mathlib.Core.Option.{Option, none, some}
use text.Mathlib.Text.{◌==◌}

-- `Boolean(s)`: the empty string is falsy.
abbrev pub truthy : String → Bool
truthy s = not (s == "")

-- `Boolean(s)` of a string that may be `undefined`.
abbrev pub present : Option String → Bool
present none = false
present (some s) = truthy s

-- `left === right` between a string that may be `undefined` and a string.
abbrev pub opt_eq : Option String → String → Bool
opt_eq none t = false
opt_eq (some s) t = s == t

-- `s <= t` on strings, by code points.
unfoldable pub str_le : String → String → Bool
str_le String.[] t = true
str_le (String.◌∷◌ c s) String.[] = false
str_le (String.◌∷◌ c s) (String.◌∷◌ d t) = elim (compare (code c) (code d)) [
  | Ordering.lt ↦ true
  | Ordering.eq ↦ str_le s t
  | Ordering.gt ↦ false
]

-- `s.slice(0, n)`
unfoldable pub str_take : ℕ → String → String
str_take zero s = String.[]
str_take (suc n) String.[] = String.[]
str_take (suc n) (String.◌∷◌ c s) = String.◌∷◌ c (str_take n s)

-- `s.length`; the texts that the program measures are ASCII.
unfoldable pub str_length : String → ℕ
str_length String.[] = 0
str_length (String.◌∷◌ c s) = suc (str_length s)

-- The text of `${left}:${right}`.
abbrev pub joined : String → String → String
joined left right = append left (String.◌∷◌ ":" right)

-- `left + right`, and `${left}${right}`
abbrev pub concat : String → String → String
concat left right = append left right
