-- ===== src/Prelude/Lists.antt =====
-- Lists measured and searched with native numbers and Boolean tests.
use Prim.Native.Nat.{ℕ, zero, suc, ◌+◌, ◌≤◌, ◌<◌}
use mathlib.Core.Path.{◌≡◌, refl, ap}
use mathlib.Core.Bool.{Bool, true, false, ◌&&◌, ◌||◌}
use mathlib.Core.List.{List, [], ◌∷◌, ◌++◌, map}
use mathlib.Core.Logic.{◌⊎◌, inl, inr}
use mathlib.Core.Option.{Option, none, some}
use native.Mathlib.Omega.{arith}
use tanu.Prelude.Tests.{if◌then◌else◌, Bool-cases}

module _ {ℓ} {A : Type ℓ} where
  abbrev pub length : List A → ℕ
  length [] = 0
  length (x ∷ xs) = suc (length xs)

  abbrev pub get_elem? : List A → ℕ → Option A
  get_elem? [] i = none
  get_elem? (x ∷ xs) zero = some x
  get_elem? (x ∷ xs) (suc i) = get_elem? xs i

  -- `iter().any(p)`
  abbrev pub any : (A → Bool) → List A → Bool
  any p [] = false
  any p (x ∷ xs) = p x || any p xs

  -- `iter().all(p)`
  abbrev pub all : (A → Bool) → List A → Bool
  all p [] = true
  all p (x ∷ xs) = p x && all p xs

  -- `iter().filter(p)`
  abbrev pub filter : (A → Bool) → List A → List A
  filter p [] = []
  filter p (x ∷ xs) = let rest = filter p xs in if p x then x ∷ rest else rest

  abbrev pub is_empty : List A → Bool
  is_empty [] = true
  is_empty (x ∷ xs) = false

  -- how often `p` holds
  abbrev pub count : (A → Bool) → List A → ℕ
  count p [] = 0
  count p (x ∷ xs) = let rest = count p xs in if p x then suc rest else rest

module _ {ℓ} {A : Type ℓ} where
  pub length-append : (xs ys : List A) → length (xs ++ ys) ≡ length xs + length ys
  length-append [] ys = omega arith
  length-append (x ∷ xs) ys = omega (arith, length-append xs ys)

  pub length-map {κ} : {B : Type κ} (f : A → B) (xs : List A) → length (map f xs) ≡ length xs
  length-map f [] = refl
  length-map f (x ∷ xs) = ap suc (length-map f xs)

  pub count-append : (p : A → Bool) (xs ys : List A) → count p (xs ++ ys) ≡ count p xs + count p ys
  count-append p [] ys = omega arith
  count-append p (x ∷ xs) ys = ground (arith, count-append p xs ys)

-- A predicate that holds of each element.
abbrev pub All {ℓ κ} : {A : Type ℓ} → (A → Type κ) → List A → Type κ
All P [] = Unit
All P (x ∷ xs) = P x × All P xs

-- `x` stands in the list.
pub data Elem {ℓ} {A : Type ℓ} (x : A) : List A → Type ℓ where
  here : {xs : List A} → Elem x (x ∷ xs)
  there : {y : A} {xs : List A} → Elem x xs → Elem x (y ∷ xs)

module _ {ℓ} {A : Type ℓ} (p : A → Bool) where
  -- `any` finds an element, and one that holds is found.
  pub any-Elem : (xs : List A) → any p xs ≡ true → (x : A) × Elem x xs × (p x ≡ true)
  any-Elem [] h = cc
  any-Elem (x ∷ xs) h = elim (Bool-cases (p x)) [
    | inl y ↦ (x, here, y)
    | inr n ↦ let (z, m, y) = any-Elem xs (rw (← h) (ground arith)) in (z, there m, y)
  ]

  pub any-of_Elem : {x : A} {xs : List A} → Elem x xs → p x ≡ true → any p xs ≡ true
  any-of_Elem here h = ground arith
  any-of_Elem (there m) h = ground (arith, any-of_Elem m h)

  pub any-append : (xs ys : List A) → any p (xs ++ ys) ≡ (any p xs || any p ys)
  any-append [] ys = refl
  any-append (x ∷ xs) ys = ground (arith, any-append xs ys)

module _ {ℓ} {A : Type ℓ} where
  -- A write out of bounds changes nothing.
  abbrev pub set : List A → ℕ → A → List A
  set [] i v = []
  set (x ∷ xs) zero v = v ∷ xs
  set (x ∷ xs) (suc i) v = x ∷ set xs i v

  -- `vec.pop()`: the last element and what is before it
  abbrev pub pop : List A → Option (A × List A)
  pop [] = none
  pop (x ∷ xs) = elim (pop xs) [ none ↦ some (x, []) | some (y, ys) ↦ some (y, x ∷ ys) ]

abbrev pub bit : Bool → ℕ
bit true = 1
bit false = 0

module _ {ℓ} {A : Type ℓ} (p : A → Bool) where
  -- Writing one element moves a count by what the old and the new element add to it.
  pub count-set :
      (xs : List A) (i : ℕ) (old v : A)
      → get_elem? xs i ≡ some old
      → count p (set xs i v) + bit (p old) ≡ count p xs + bit (p v)
  count-set [] i old v h = cc
  count-set (x ∷ xs) zero old v h = ground arith
  count-set (x ∷ xs) (suc i) old v h = ground (arith, count-set xs i old v h)

  -- An element that counts is counted.
  pub count-get_elem? :
      (xs : List A) (i : ℕ) (x : A) → get_elem? xs i ≡ some x → p x ≡ true → 0 < count p xs
  count-get_elem? [] i x h y = cc
  count-get_elem? (x' ∷ xs) zero x h y = ground arith
  count-get_elem? (x' ∷ xs) (suc i) x h y = ground (arith, count-get_elem? xs i x h y)

  -- Two places that count are counted twice.
  pub count-get_elem?_two :
      (xs : List A) (i j : ℕ) (x y : A)
      → i < j
      → get_elem? xs i ≡ some x
      → get_elem? xs j ≡ some y
      → p x ≡ true
      → p y ≡ true
      → 2 ≤ count p xs
  count-get_elem?_two [] i j x y lt hi hj px py = cc
  count-get_elem?_two (z ∷ xs) i zero x y lt hi hj px py = absurd (omega arith)
  count-get_elem?_two (z ∷ xs) zero (suc j) x y lt hi hj px py =
      ground (arith, count-get_elem? xs j y hj py)
  count-get_elem?_two (z ∷ xs) (suc i) (suc j) x y lt hi hj px py =
      ground (arith, count-get_elem?_two xs i j x y (omega arith) hi hj px py)

pub pop-none {ℓ} : {A : Type ℓ} (xs : List A) → pop xs ≡ none → xs ≡ []
pop-none [] h = refl
pop-none (x ∷ xs) h = ground arith

-- `pop` takes the last element.
pub pop-some {ℓ} :
    {A : Type ℓ} (xs : List A) (y : A) (ys : List A) → pop xs ≡ some (y, ys) → xs ≡ ys ++ (y ∷ [])
pop-some [] y ys h = cc
pop-some (x ∷ xs) y [] h = ground (arith, pop-none xs)
pop-some (x ∷ xs) y (w ∷ ys) h = ground (arith, pop-some xs y ys)

-- What a `pop` takes off is counted in what was there.
pub count-pop {ℓ} :
    {A : Type ℓ} (p : A → Bool) (xs : List A) (y : A) (ys : List A)
    → pop xs ≡ some (y, ys)
    → count p xs ≡ count p ys + bit (p y)
count-pop p xs y ys h = rw (pop-some xs y ys h) (ground (arith, count-append p ys (y ∷ [])))

pub Elem-map {ℓ κ} :
    {A : Type ℓ} {B : Type κ} (f : A → B) {x : A} {xs : List A} → Elem x xs → Elem (f x) (map f xs)
Elem-map f here = here
Elem-map f (there m) = there (Elem-map f m)

module _ {ℓ} {A : Type ℓ} where
  pub Elem-append_left : {x : A} {xs : List A} (ys : List A) → Elem x xs → Elem x (xs ++ ys)
  Elem-append_left ys here = here
  Elem-append_left ys (there m) = there (Elem-append_left ys m)

  pub Elem-append_right : {x : A} (xs : List A) {ys : List A} → Elem x ys → Elem x (xs ++ ys)
  Elem-append_right [] m = m
  Elem-append_right (y ∷ xs) m = there (Elem-append_right xs m)

  pub Elem-append : {x : A} (xs ys : List A) → Elem x (xs ++ ys) → Elem x xs ⊎ Elem x ys
  Elem-append [] ys m = inr m
  Elem-append (x ∷ xs) ys here = inl here
  Elem-append (x ∷ xs) ys (there m) = elim (Elem-append xs ys m) [
    | inl l ↦ inl (there l)
    | inr r ↦ inr r
  ]

  kept_head :
      (p : A → Bool) {x y : A} {zs : List A} (xs : List A) (b : Bool)
      → p y ≡ b
      → (Elem x zs → Elem x xs × (p x ≡ true))
      → Elem x (if b then y ∷ zs else zs)
      → Elem x (y ∷ xs) × (p x ≡ true)
  kept_head p xs true e rest here = (here, e)
  kept_head p xs true e rest (there m) = let (l, f) = rest m in (there l, f)
  kept_head p xs false e rest m = let (l, f) = rest m in (there l, f)

  -- What `filter` keeps was there and passes the test.
  pub filter-Elem :
      (p : A → Bool) {x : A} (xs : List A) → Elem x (filter p xs) → Elem x xs × (p x ≡ true)
  filter-Elem p [] m = elim m [ ]
  filter-Elem p (y ∷ xs) m = kept_head p xs (p y) refl (filter-Elem p xs) m

  pub Elem-filter :
      (p : A → Bool) {x : A} {xs : List A} → Elem x xs → p x ≡ true → Elem x (filter p xs)
  Elem-filter p (here {xs = xs}) h = rw h here
  Elem-filter p {x} (there {y = y} m) h = elim (Bool-cases (p y)) [
    | inl yes_ ↦ rw yes_ (there (Elem-filter p m h))
    | inr no_ ↦ rw no_ (Elem-filter p m h)
  ]
