-- ===== src/Prelude/Members.antt =====
-- More on what stands in a list, and where.
use Prim.Native.Nat.{ℕ, zero, suc}
use mathlib.Core.Path.{◌≡◌, refl, subst}
use mathlib.Core.Bool.{true, not}
use mathlib.Core.List.{List, [], ◌∷◌, map}
use mathlib.Core.Option.{some}
use native.Mathlib.Omega.{arith}
use tanu.Prelude.Lists.{Elem, here, there, get_elem?, is_empty}

pub map-Elem :
    {A B : Type 0} (f : A → B) {y : B} (xs : List A)
    → Elem y (map f xs)
    → (x : A) × Elem x xs × (y ≡ f x)
map-Elem f [] m = elim m [ ]
map-Elem f (x ∷ xs) here = (x, here, refl)
map-Elem f (x ∷ xs) (there m) = let (z, k, e) = map-Elem f xs m in (z, there k, e)

pub Elem-nonempty : {A : Type 0} {x : A} {xs : List A} → Elem x xs → not (is_empty xs) ≡ true
Elem-nonempty here = refl
Elem-nonempty (there m) = refl

pub Elem-one : {A : Type 0} {x y : A} → Elem x (y ∷ []) → x ≡ y
Elem-one here = refl
Elem-one (there m) = elim m [ ]

pub get_elem?-map :
    {A B : Type 0} (f : A → B) (xs : List A) (i : ℕ) {x : A}
    → get_elem? xs i ≡ some x
    → get_elem? (map f xs) i ≡ some (f x)
get_elem?-map f [] i h = cc
get_elem?-map f (x ∷ xs) zero h = cc
get_elem?-map f (x ∷ xs) (suc i) h = get_elem?-map f xs i h

pub get_elem?-Elem :
    {A : Type 0} (xs : List A) (i : ℕ) {x : A} → get_elem? xs i ≡ some x → Elem x xs
get_elem?-Elem [] i h = cc
get_elem?-Elem (y ∷ xs) zero {x = x} h = subst (λ z. Elem z (y ∷ xs)) (ground arith) here
get_elem?-Elem (x ∷ xs) (suc i) h = there (get_elem?-Elem xs i h)
