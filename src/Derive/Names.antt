-- ===== src/Derive/Names.antt =====
-- The names of tests with arguments, of tanu-derive/src/lib.rs.
use tanu.Prelude.{
  ℕ, zero, suc, ◌-◌, ◌==◌, Bool, true, false, ◌&&◌, ◌||◌, not, List, [], ◌∷◌, ◌++◌, Option, none,
  some, Text, codes, starts_with, is_empty, length, All, Lacks, all, ◌≡◌, refl, ap, arith,
  Bool-cases, inl, inr, Elem, here, there,
}
use tanu.Derive.{
  Expr, path_expr, stringified, extract_and_stringify_option, none_path, replace_from, replace_all,
  replacements, argument_names, generate_test_name,
}

Lacks-append : (c : ℕ) (s t : List ℕ) → Lacks c s → Lacks c t → Lacks c (s ++ t)
Lacks-append c [] t h k = k
Lacks-append c (x ∷ s) t h k = (h.0, Lacks-append c s t h.1 k)

replace_from-Lacks :
    (c skip : ℕ) (pattern by s : Text)
    → Lacks c by
    → Lacks c s
    → Lacks c (replace_from skip pattern by s)
unfolding replace_from
replace_from-Lacks c skip pattern by [] h k = tt
replace_from-Lacks c (suc skip) pattern by (x ∷ s) h k =
    replace_from-Lacks c skip pattern by s h k.1
replace_from-Lacks c zero pattern by (x ∷ s) h k =
    let taken = replace_from-Lacks c (length pattern - 1) pattern by s h k.1 in
    let kept = replace_from-Lacks c zero pattern by s h k.1 in
    elim (Bool-cases (starts_with (x ∷ s) pattern)) [
      | inl y ↦ rw y (Lacks-append c by _ h taken)
      | inr e ↦ rw e (k.0, kept)
    ]

replace_from-one : (c : ℕ) (by s : Text) → Lacks c by → Lacks c (replace_from zero (c ∷ []) by s)
unfolding replace_from starts_with
replace_from-one c by [] h = tt
replace_from-one c by (x ∷ s) h =
    ground (arith, replace_from-one c by s h, Lacks-append c by (replace_from zero (c ∷ []) by s))

and_true : (a b : Bool) → (a && b) ≡ true → (a ≡ true) × (b ≡ true)
and_true a b h = ground arith

or_true : (a b : Bool) → a ≡ false → (a || b) ≡ true → b ≡ true
or_true a b h k = ground arith

-- whether the steps take a character out, and whether all put none in
abbrev lacks : ℕ → Text → Bool
lacks c = all (λ x. not (x == c))

abbrev puts_none : ℕ → List (Text × Text) → Bool
puts_none c [] = true
puts_none c ((pattern, by) ∷ rs) = lacks c by && puts_none c rs

abbrev is_one : ℕ → Text → Bool
is_one c [] = false
is_one c (x ∷ []) = x == c
is_one c (x ∷ y ∷ s) = false

abbrev takes_out : ℕ → List (Text × Text) → Bool
takes_out c [] = false
takes_out c ((pattern, by) ∷ rs) = is_one c pattern || takes_out c rs

lacks-Lacks : (c : ℕ) (s : Text) → lacks c s ≡ true → Lacks c s
lacks-Lacks c [] h = tt
lacks-Lacks c (x ∷ s) h = ground (arith, lacks-Lacks c s)

Lacks-replace_all :
    (c : ℕ) (rs : List (Text × Text)) (s : Text)
    → puts_none c rs ≡ true
    → Lacks c s
    → Lacks c (replace_all rs s)
unfolding replace_all
Lacks-replace_all c [] s h k = k
Lacks-replace_all c ((pattern, by) ∷ rs) s h k =
    let p = and_true (lacks c by) (puts_none c rs) h in
    Lacks-replace_all c rs (replace_from zero pattern by s) p.1
      (replace_from-Lacks c zero pattern by s (lacks-Lacks c by p.0) k)

one_pattern : (c : ℕ) (p : Text) → is_one c p ≡ true → p ≡ c ∷ []
one_pattern c [] h = ground arith
one_pattern c (x ∷ []) h = ground arith
one_pattern c (x ∷ y ∷ p) h = ground arith

taken-Lacks :
    (c : ℕ) (rs : List (Text × Text)) (s : Text)
    → puts_none c rs ≡ true
    → takes_out c rs ≡ true
    → Lacks c (replace_all rs s)
unfolding replace_all
taken-Lacks c [] s h k = ground arith
taken-Lacks c ((pattern, by) ∷ rs) s h k =
    let p = and_true (lacks c by) (puts_none c rs) h in
    elim (Bool-cases (is_one c pattern)) [
      | inl y ↦
          Lacks-replace_all c rs (replace_from zero pattern by s) p.1
            (rw (one_pattern c pattern y) (replace_from-one c by s (lacks-Lacks c by p.0)))
      | inr e ↦
          taken-Lacks c rs (replace_from zero pattern by s) p.1
            (or_true (is_one c pattern) (takes_out c rs) e k)
    ]

-- the characters that a name has not
abbrev pub removed : Text
removed = 92 ∷ 34 ∷ codes "+-/*%!&|^<>(){}[] ,."

abbrev is_taken : ℕ → Bool
is_taken c = puts_none c replacements && takes_out c replacements

all-Elem : (p : ℕ → Bool) (xs : Text) (c : ℕ) → Elem c xs → all p xs ≡ true → p c ≡ true
all-Elem p [] c e h = elim e [ ]
all-Elem p (x ∷ xs) c here h = (and_true (p c) (all p xs) h).0
all-Elem p (x ∷ xs) c (there e) h = all-Elem p xs c e (and_true (p x) (all p xs) h).1

all_taken : all is_taken removed ≡ true
all_taken = refl

module _ (lower : Text → Text) where
  -- The part of a name that comes from an argument has no backslash, double quote, space, comma or dot,
  -- none of + - / * % ! & | ^ < and >, and no round, curly or square bracket, if putting a text into
  -- lower case adds none.
  pub argument_names-Lacks :
      (c : ℕ) (args : List Expr)
      → ((t : Text) → Lacks c t → Lacks c (lower t))
      → Elem c removed
      → All (Lacks c) (argument_names lower args)
  unfolding argument_names
  argument_names-Lacks c [] keeps m = tt
  argument_names-Lacks c (e ∷ es) keeps m =
      of_one (stringified e) (argument_names-Lacks c es keeps m)
    where
      of_one :
          (o : Option Text)
          → All (Lacks c) (argument_names lower es)
          → All (Lacks c) (elim o [
            | none ↦ argument_names lower es
            | some s ↦ lower (replace_all replacements s) ∷ argument_names lower es
          ])
      of_one none rest = rest
      of_one (some s) rest =
          let p =
            and_true (puts_none c replacements) (takes_out c replacements)
              (all-Elem is_taken removed c m all_taken) in
          (keeps _ (taken-Lacks c replacements s p.0 p.1), rest)

  without_path :
      (xs ys : List Expr) (segments : List Text) (ident : Option Text)
      → none_path ident ≡ none
      → argument_names lower (xs ++ (path_expr segments ident ∷ ys))
        ≡ argument_names lower (xs ++ ys)
  unfolding argument_names stringified extract_and_stringify_option
  without_path [] ys segments ident h =
      ap
        (λ (o : Option Text). elim o [
          | none ↦ argument_names lower ys
          | some s ↦ lower (replace_all replacements s) ∷ argument_names lower ys
        ])
        h
  without_path (x ∷ xs) ys segments ident h =
      ap
        (λ (rest : List Text). elim (stringified x) [
          | none ↦ rest
          | some s ↦ lower (replace_all replacements s) ∷ rest
        ])
        (without_path xs ys segments ident h)

  not_empty : {A : Type 0} (xs ys : List A) (y : A) → is_empty (xs ++ (y ∷ ys)) ≡ false
  not_empty [] ys y = refl
  not_empty (x ∷ xs) ys y = refl

  -- Two tests of a function whose arguments differ in a path alone, as a constant or an enum's variant
  -- is one, have the same name: a path other than `None` is left out of it.
  pub generate_test_name-paths :
      (func_name : Text) (xs ys : List Expr) (segments others : List Text)
      (ident other : Option Text)
      → none_path ident ≡ none
      → none_path other ≡ none
      → generate_test_name lower func_name (xs ++ (path_expr segments ident ∷ ys)) none
        ≡ generate_test_name lower func_name (xs ++ (path_expr others other ∷ ys)) none
  unfolding generate_test_name
  generate_test_name-paths func_name xs ys segments others ident other h k =
      rw
        (
          not_empty xs ys (path_expr segments ident),
          not_empty xs ys (path_expr others other),
          without_path xs ys segments ident h,
          without_path xs ys others other k,
        )
        refl
