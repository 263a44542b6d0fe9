-- ===== src/Runner/Plan/Selection.antt =====
-- Which tests are run, and in which projects.
use tanu.Prelude.{
  List, [], ◌∷◌, Text, ◌≡◌, ◌↔◌, refl, Elem, here, there, Elem-append, Elem-append_left,
  Elem-append_right, filter-Elem, Elem-filter, inl, inr, Map, lookup, Elem-map,
}
use tanu.Config.{ProjectConfig}
use tanu.Runner.{TestInfo, full_name}
use tanu.Runner.Filters.{
  project_filter, module_filter, test_name_filter, test_ignore_filter, IsWanted, IsKept,
  passes-IsWanted, test_ignore_filter_iff,
}
use tanu.Runner.Plan.{Selected, with_projects, cartesian_product, select}

module _ {V F : Type 0} where
  with_projects-Elem :
      (t : Selected V F) (info : TestInfo) (factory : F) (ps : List (ProjectConfig V))
      → Elem t (with_projects info factory ps)
      → Elem t.project ps × (t.info ≡ info) × (t.factory ≡ factory)
  unfolding with_projects
  with_projects-Elem t info factory [] m = elim m [ ]
  with_projects-Elem t info factory (p ∷ ps) here = (here, refl, refl)
  with_projects-Elem t info factory (p ∷ ps) (there m) =
      let (k, e, f) = with_projects-Elem t info factory ps m in (there k, e, f)

  Elem-with_projects :
      (t : Selected V F) {ps : List (ProjectConfig V)}
      → Elem t.project ps
      → Elem t (with_projects t.info t.factory ps)
  unfolding with_projects
  Elem-with_projects t m =
      Elem-map (λ p. record { project = p; info = t.info; factory = t.factory }) m

  product-Elem :
      (t : Selected V F) (tests : List (TestInfo × F)) (ps : List (ProjectConfig V))
      → Elem t (cartesian_product tests ps)
      → Elem (t.info, t.factory) tests × Elem t.project ps
  unfolding cartesian_product
  product-Elem t [] ps m = elim m [ ]
  product-Elem t ((info, factory) ∷ tests) ps m =
      elim (Elem-append (with_projects info factory ps) (cartesian_product tests ps) m) [
        | inl l ↦ let (k, e, f) = with_projects-Elem t info factory ps l in (rw (e, f) here, k)
        | inr r ↦ let (k, l) = product-Elem t tests ps r in (there k, l)
      ]

  Elem-product :
      (t : Selected V F) {tests : List (TestInfo × F)} (ps : List (ProjectConfig V))
      → Elem (t.info, t.factory) tests
      → Elem t.project ps
      → Elem t (cartesian_product tests ps)
  unfolding cartesian_product
  Elem-product t ps m k = go m
    where
      go :
          {ts : List (TestInfo × F)}
          → Elem (t.info, t.factory) ts
          → Elem t (cartesian_product ts ps)
      go (here {xs = xs}) = Elem-append_left (cartesian_product xs ps) (Elem-with_projects t k)
      go (there {y = (info, factory)} n) = Elem-append_right (with_projects info factory ps) (go n)

  -- what the names on the command line and the ignore lists ask of a test in a project
  pub record IsSelected (project_names module_names test_names : List Text)
      (ignores : Map (List Text)) (t : Selected V F) : Type 0 where
    pub project_wanted : IsWanted project_names t.project.name
    pub module_wanted : IsWanted module_names t.info.module_path
    pub test_wanted : IsWanted test_names (full_name t.info)
    pub not_ignored : IsKept (lookup t.project.name ignores) (full_name t.info)

  -- A test runs in a project exactly when the test is registered, the project is configured, each list
  -- of names is empty or has its name, and the project's ignore list, if any, has not its full name.
  pub select-IsSelected :
      (project_names module_names test_names : List Text) (ignores : Map (List Text))
      (tests : List (TestInfo × F)) (projects : List (ProjectConfig V)) (t : Selected V F)
      → Elem t (select project_names module_names test_names ignores tests projects) ↔ (
          Elem (t.info, t.factory) tests
          × Elem t.project projects
          × IsSelected project_names module_names test_names ignores t)
  unfolding select project_filter module_filter test_name_filter
  select-IsSelected project_names module_names test_names ignores tests projects t = (
    λ m.
        let (m₁, i) = filter-Elem (λ t. test_ignore_filter ignores t.project t.info) _ m in
        let (m₂, p) = filter-Elem (λ t. project_filter project_names t.project t.info) _ m₁ in
        let (m₃, d) = filter-Elem (λ t. module_filter module_names t.project t.info) _ m₂ in
        let (m₄, n) = filter-Elem (λ t. test_name_filter test_names t.project t.info) _ m₃ in
        let (r, k) = product-Elem t tests projects m₄ in
        (
          r,
          k,
          record {
            project_wanted = (passes-IsWanted project_names t.project.name).0 p;
            module_wanted = (passes-IsWanted module_names t.info.module_path).0 d;
            test_wanted = (passes-IsWanted test_names (full_name t.info)).0 n;
            not_ignored = (test_ignore_filter_iff ignores t.project t.info).0 i;
          },
        ),
    λ h.
        Elem-filter (λ t. test_ignore_filter ignores t.project t.info)
          (Elem-filter (λ t. project_filter project_names t.project t.info)
            (Elem-filter (λ t. module_filter module_names t.project t.info)
              (Elem-filter (λ t. test_name_filter test_names t.project t.info)
                (Elem-product t projects h.0 h.1)
                ((passes-IsWanted test_names (full_name t.info)).1 h.2.test_wanted))
              ((passes-IsWanted module_names t.info.module_path).1 h.2.module_wanted))
            ((passes-IsWanted project_names t.project.name).1 h.2.project_wanted))
          ((test_ignore_filter_iff ignores t.project t.info).1 h.2.not_ignored),
  )
