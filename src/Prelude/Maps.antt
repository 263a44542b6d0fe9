-- ===== src/Prelude/Maps.antt =====
-- `HashMap` by text keys, as an association list in which the first entry of a key counts. The code
-- never depends on the order of a map.
use tanu.Prelude.Tests.{if◌then◌else◌, or_else}
use tanu.Prelude.Texts.{Text, text_eq, text_eq_iff}
use mathlib.Core.Path.{◌≡◌, refl}
use mathlib.Core.Option.{Option, none, some}
use mathlib.Core.List.{List, [], ◌∷◌}
use native.Mathlib.Omega.{arith}

abbrev pub Map {ℓ} : Type ℓ → Type ℓ
Map V = List (Text × V)

module _ {ℓ} {V : Type ℓ} where
  unfoldable pub lookup : Text → Map V → Option V
  lookup k [] = none
  lookup k ((j, v) ∷ m) = if text_eq j k then some v else lookup k m

  unfoldable pub insert : Text → V → Map V → Map V
  insert k v m = (k, v) ∷ m

  unfoldable pub remove : Text → Map V → Map V
  remove k [] = []
  remove k ((j, v) ∷ m) = let rest = remove k m in if text_eq j k then rest else (j, v) ∷ rest

  -- `map.extend(entries)`, and `collect` into an empty map: later entries replace earlier ones
  unfoldable pub extend : List (Text × V) → Map V → Map V
  unfolding insert
  extend [] m = m
  extend ((k, v) ∷ es) m = extend es (insert k v m)

  -- the last value that a list of entries gives a key
  unfoldable pub last_value : Text → List (Text × V) → Option V
  last_value k [] = none
  last_value k ((j, v) ∷ es) = or_else (last_value k es) (if text_eq j k then some v else none)

  pub lookup-insert :
      (k j : Text) (v : V) (m : Map V)
      → lookup j (insert k v m) ≡ (if text_eq k j then some v else lookup j m)
  unfolding lookup insert
  lookup-insert k j v m = refl

  pub lookup-remove :
      (k j : Text) (m : Map V) → lookup j (remove k m) ≡ (if text_eq k j then none else lookup j m)
  unfolding lookup remove
  lookup-remove k j [] = ground arith
  lookup-remove k j ((i, v) ∷ m) =
      ground (arith, text_eq_iff i k, text_eq_iff i j, text_eq_iff k j, lookup-remove k j m)

  pub lookup-extend :
      (k : Text) (es : List (Text × V)) (m : Map V)
      → lookup k (extend es m) ≡ or_else (last_value k es) (lookup k m)
  unfolding extend last_value
  lookup-extend k [] m = refl
  lookup-extend k ((j, v) ∷ es) m =
      ground (arith, lookup-extend k es (insert j v m), lookup-insert j k v m)
