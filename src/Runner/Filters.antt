-- ===== src/Runner/Filters.antt =====
-- The filters of tanu-core/src/runner.rs.
use tanu.Prelude.{
  Bool, true, not, List, [], ◌∷◌, map, Option, none, some, Text, text_eq, text_eq_iff, ◌≡◌, ◌≢◌,
  ◌↔◌, ◌⊎◌, inl, inr, sym, subst, refl, arith, Map, lookup, extend, any, all, any-Elem, any-of_Elem,
  Elem, is_empty, if◌then◌else◌, text_eq_refl,
}
use tanu.Config.{ProjectConfig, Config}
use tanu.Runner.{TestInfo, full_name}

-- `names.iter().any(|n| x == n)`, where no names at all let everything through
unfoldable pub passes : List Text → Text → Bool
passes names x = if is_empty names then true else any (λ n. text_eq x n) names

module _ {V : Type 0} where
  unfoldable pub project_filter : List Text → ProjectConfig V → TestInfo → Bool
  unfolding passes
  project_filter project_names project info = passes project_names project.name

  unfoldable pub module_filter : List Text → ProjectConfig V → TestInfo → Bool
  unfolding passes
  module_filter module_names project info = passes module_names info.module_path

  unfoldable pub test_name_filter : List Text → ProjectConfig V → TestInfo → Bool
  unfolding passes
  test_name_filter test_names project info = passes test_names (full_name info)

  -- `TestIgnoreFilter::default()`, from the global configuration
  unfoldable pub test_ignores : Config V → Map (List Text)
  unfolding extend
  test_ignores c = extend (map (λ p. (p.name, p.test_ignore)) c.projects) []

  unfoldable pub test_ignore_filter : Map (List Text) → ProjectConfig V → TestInfo → Bool
  unfolding lookup
  test_ignore_filter ignores project info = elim (lookup project.name ignores) [
    | none ↦ true
    | some test_ignore ↦ all (λ n. not (text_eq (full_name info) n)) test_ignore
  ]

-- what a list of names asks of a name
abbrev pub IsWanted : List Text → Text → Type 0
IsWanted names x = (names ≡ []) ⊎ Elem x names

pub passes-IsWanted : (names : List Text) (x : Text) → (passes names x ≡ true) ↔ IsWanted names x
unfolding passes
passes-IsWanted [] x = (λ h. inl refl, λ h. refl)
passes-IsWanted (n ∷ names) x = (
  λ h.
      let (y, m, e) = any-Elem (λ n. text_eq x n) (n ∷ names) h in
      inr (subst (λ t. Elem t (n ∷ names)) (sym ((text_eq_iff x y).0 e)) m),
  λ h. elim h [ inl e ↦ cc | inr m ↦ any-of_Elem (λ n. text_eq x n) m (text_eq_refl x) ],
)

-- no entry of the list is the name
abbrev pub Absent : Text → List Text → Type 0
Absent x [] = Unit
Absent x (n ∷ ns) = (x ≢ n) × Absent x ns

all-Absent : (x : Text) (ns : List Text) → all (λ n. not (text_eq x n)) ns ≡ true → Absent x ns
all-Absent x [] h = tt
all-Absent x (n ∷ ns) h =
    ((λ e. ground (arith, (text_eq_iff x n).1 e)), all-Absent x ns (ground arith))

Absent-all : (x : Text) (ns : List Text) → Absent x ns → all (λ n. not (text_eq x n)) ns ≡ true
Absent-all x [] h = refl
Absent-all x (n ∷ ns) h = ground (arith, text_eq_iff x n, Absent-all x ns h.1)

-- what the ignore lists ask of a test
abbrev pub IsKept : Option (List Text) → Text → Type 0
IsKept none x = Unit
IsKept (some names) x = Absent x names

module _ {V : Type 0} (ignores : Map (List Text)) (project : ProjectConfig V)
    (info : TestInfo) where
  test_ignore_filter-IsKept :
      (o : Option (List Text))
      → lookup project.name ignores ≡ o
      → (test_ignore_filter ignores project info ≡ true) ↔ IsKept o (full_name info)
  unfolding test_ignore_filter
  test_ignore_filter-IsKept none e = (λ h. tt, λ h. ground arith)
  test_ignore_filter-IsKept (some names) e = (
    λ h. all-Absent (full_name info) names (ground arith),
    λ h. ground (arith, Absent-all (full_name info) names h),
  )

  pub test_ignore_filter_iff :
      (test_ignore_filter ignores project info ≡ true)
      ↔ IsKept (lookup project.name ignores) (full_name info)
  test_ignore_filter_iff = test_ignore_filter-IsKept (lookup project.name ignores) refl
