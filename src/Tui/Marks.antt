-- ===== src/Tui/Marks.antt =====
-- Which tests of the list an operation changes. A test is found by the places of its project, of its
-- module in the project, and of itself in the module.
use tanu.Prelude.{
  ℕ, zero, suc, Bool, true, false, ◌&&◌, List, [], ◌∷◌, map, Option, none, some, Text, text_eq,
  map_option, if◌then◌else◌, get_elem?, ◌≡◌, ◌∙◌, refl, ap, arith, Option-cases, Bool-cases, inl,
  inr,
}
use tanu.Tui.{
  TestResult, TestState, ModuleState, ProjectState, set_executed, update_module, update_project,
  on_test_updated, on_module_updated, on_project_updated, is_named,
}

get_elem?-map :
    {A : Type 0} (f : A → A) (xs : List A) (i : ℕ)
    → get_elem? (map f xs) i ≡ map_option f (get_elem? xs i)
get_elem?-map f [] i = refl
get_elem?-map f (x ∷ xs) zero = refl
get_elem?-map f (x ∷ xs) (suc i) = get_elem?-map f xs i

pub map_id : {A : Type 0} (xs : List A) → xs ≡ map (λ x. x) xs
map_id [] = refl
map_id (x ∷ xs) = ap (λ ys. x ∷ ys) (map_id xs)

-- a test, under the names of its project and of its module
abbrev pub Found : Type 0 → Type 0 → Type 0 → Type 0
Found T H G = Text × Text × TestState T H G

module _ {T H G : Type 0} where
  abbrev pub in_module : Text → ℕ → Option (ModuleState T H G) → Option (Found T H G)
  in_module project l none = none
  in_module project l (some m) = map_option (λ t. (project, m.name, t)) (get_elem? m.tests l)

  abbrev pub in_project : ℕ → ℕ → Option (ProjectState T H G) → Option (Found T H G)
  in_project j l none = none
  in_project j l (some p) = in_module p.name l (get_elem? p.modules j)

  abbrev pub test_at : ℕ → ℕ → ℕ → List (ProjectState T H G) → Option (Found T H G)
  test_at i j l projects = in_project j l (get_elem? projects i)

  -- an operation on a test, which knows the names
  abbrev pub apply_to :
      (Text → Text → TestState T H G → TestState T H G) → Found T H G → Found T H G
  apply_to g (project, module_name, t) = (project, module_name, g project module_name t)

  -- An operation that keeps the names and the places changes a test at its place.
  module _ (f : ProjectState T H G → ProjectState T H G)
      (fm : Text → ModuleState T H G → ModuleState T H G)
      (g : Text → Text → TestState T H G → TestState T H G)
      (f-name : (p : ProjectState T H G) → (f p).name ≡ p.name)
      (f-modules : (p : ProjectState T H G) → (f p).modules ≡ map (fm p.name) p.modules)
      (fm-name : (n : Text) (m : ModuleState T H G) → (fm n m).name ≡ m.name)
      (fm-tests : (n : Text) (m : ModuleState T H G)
        → (fm n m).tests ≡ map (g n m.name) m.tests) where
    in_module-map :
        (n : Text) (l : ℕ) (o : Option (ModuleState T H G))
        → in_module n l (map_option (fm n) o) ≡ map_option (apply_to g) (in_module n l o)
    in_module-map n l none = refl
    in_module-map n l (some m) =
        rw (fm-name n m, fm-tests n m, get_elem?-map (g n m.name) m.tests l)
          (ground (arith, Option-cases (get_elem? m.tests l)))

    in_project-map :
        (j l : ℕ) (o : Option (ProjectState T H G))
        → in_project j l (map_option f o) ≡ map_option (apply_to g) (in_project j l o)
    in_project-map j l none = refl
    in_project-map j l (some p) =
        rw (f-name p, f-modules p, get_elem?-map (fm p.name) p.modules j)
          (in_module-map p.name l (get_elem? p.modules j))

    pub test_at-map :
        (i j l : ℕ) (ps : List (ProjectState T H G))
        → test_at i j l (map f ps) ≡ map_option (apply_to g) (test_at i j l ps)
    test_at-map i j l ps =
        ap (in_project j l) (get_elem?-map f ps i) ∙ in_project-map j l (get_elem? ps i)

module _ {T H G : Type 0} (project_name module_name name : Text) (r : TestResult H G) where
  abbrev end_if : Bool → TestState T H G → TestState T H G
  end_if true t = if text_eq t.info.name name then set_executed r t else t
  end_if false t = t

  -- what the end of a test makes of each test
  abbrev pub ended : Text → Text → TestState T H G → TestState T H G
  ended p m = end_if (text_eq p project_name && text_eq m module_name)

  abbrev update_if : Bool → ModuleState T H G → ModuleState T H G
  update_if true m = if text_eq m.name module_name then update_module name r m else m
  update_if false m = m

  update_module-name : (m : ModuleState T H G) → (update_module name r m).name ≡ m.name
  unfolding update_module on_module_updated
  update_module-name m = ground arith

  update_module-tests :
      (m : ModuleState T H G)
      → (update_module name r m).tests
        ≡ map (λ t. if text_eq t.info.name name then set_executed r t else t) m.tests
  unfolding update_module on_module_updated is_named
  update_module-tests m = ground arith

  update_project-name :
      (p : ProjectState T H G) → (update_project module_name name r p).name ≡ p.name
  unfolding update_project on_project_updated
  update_project-name p = ground arith

  update_project-modules :
      (p : ProjectState T H G)
      → (update_project module_name name r p).modules
        ≡ map (λ m. if text_eq m.name module_name then update_module name r m else m) p.modules
  unfolding update_project on_project_updated
  update_project-modules p = ground arith

  -- The end of a test marks each test of that name, in each module of that name of each project of
  -- that name, as executed with the result, and leaves every other test as it is, in its place.
  pub on_test_updated-ended :
      (i j l : ℕ) (ps : List (ProjectState T H G))
      → test_at i j l (on_test_updated project_name module_name name r ps)
        ≡ map_option (apply_to ended) (test_at i j l ps)
  unfolding on_test_updated
  on_test_updated-ended i j l ps =
      test_at-map _ (λ n. update_if (text_eq n project_name)) ended names modules module_names tests
        i j l ps
    where
      names :
          (p : ProjectState T H G)
          → (if text_eq p.name project_name then update_project module_name name r p else p).name
            ≡ p.name
      names p = ground (arith, update_project-name p)

      modules :
          (p : ProjectState T H G)
          → (if text_eq p.name project_name then update_project module_name name r p else p).modules
            ≡ map (update_if (text_eq p.name project_name)) p.modules
      modules p = elim (Bool-cases (text_eq p.name project_name)) [
        | inl y ↦ rw y (update_project-modules p)
        | inr n ↦ rw n (map_id p.modules)
      ]

      module_names :
          (n : Text) (m : ModuleState T H G) → (update_if (text_eq n project_name) m).name ≡ m.name
      module_names n m = ground (arith, update_module-name m)

      tests :
          (n : Text) (m : ModuleState T H G)
          → (update_if (text_eq n project_name) m).tests ≡ map (ended n m.name) m.tests
      tests n m = elim (Bool-cases (text_eq n project_name)) [
        | inl y ↦ elim (Bool-cases (text_eq m.name module_name)) [
          | inl z ↦ rw (y, z) (update_module-tests m)
          | inr z ↦ rw (y, z) (map_id m.tests)
        ]
        | inr y ↦ rw y (map_id m.tests)
      ]
