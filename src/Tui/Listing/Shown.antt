-- ===== src/Tui/Listing/Shown.antt =====
-- The tests that the interface shows under each project, against those that a run selects.
use tanu.Prelude.{
  ℕ, true, not, List, [], ◌∷◌, map, some, Text, is_empty, Map, lookup, ◌≡◌, ◌↔◌, ◌⊎◌, inl, inr,
  refl, sym, Elem, here, there, Elem-map, filter-Elem, Elem-filter, get_elem?, subst, ap, ◌∙◌,
  map-Elem, Elem-nonempty, get_elem?-map, get_elem?-Elem,
}
use tanu.Config.{ProjectConfig}
use tanu.Runner.{TestInfo, full_name}
use tanu.Runner.Filters.{test_ignore_filter, IsKept, test_ignore_filter_iff}
use tanu.Runner.Plan.{select}
use tanu.Runner.Plan.Selection.{select-IsSelected}
use tanu.Runner.Options.{infos}
use tanu.Tui.{TestState, ModuleState, ProjectState}
use tanu.Tui.Listing.{
  Groups, fresh_test, group_by_module, listed_module, listed_project, new_projects,
}
use tanu.Tui.Listing.Groups.{Elem-Grouped, Grouped-Elem, group_complete, group_sound}

module _ {T H G : Type 0} where
  -- The test stands in a module of the project that has the name of the test's module.
  pub record Shown (project : ProjectState T H G) (info : TestInfo) : Type 0 where
    pub shown_module : ModuleState T H G
    pub shown_test : TestState T H G
    pub module_there : Elem shown_module project.modules
    pub test_there : Elem shown_test shown_module.tests
    pub same_info : shown_test.info ≡ info
    pub same_module : shown_module.name ≡ info.module_path

  -- the iteration over the map visits its entries and no others
  abbrev pub Visits : (Groups T H G → Groups T H G) → Type 0
  Visits order =
      (gs : Groups T H G) (g : Text × List (TestState T H G)) → Elem g (order gs) ↔ Elem g gs

  module _ {V : Type 0} (ignores : Map (List Text)) (order : Groups T H G → Groups T H G)
      (visits : Visits order) (project : ProjectConfig V) where
    Shown-listed :
        (is : List TestInfo) (info : TestInfo)
        → Elem info is
        → IsKept (lookup project.name ignores) (full_name info)
        → Shown (listed_project ignores order is project) info
    unfolding listed_project listed_module group_by_module fresh_test
    Shown-listed is info m k =
        let (ts, i, j) =
          Grouped-Elem (group_by_module is)
            (group_complete (fresh_test info) [] (Elem-map fresh_test m)) in
        let kept =
          Elem-filter (λ t. test_ignore_filter ignores project t.info) j
            ((test_ignore_filter_iff ignores project info).1 k) in
        record {
          shown_module = listed_module ignores order project (info.module_path, ts);
          shown_test = fresh_test info;
          module_there =
              Elem-filter (λ m. not (is_empty m.tests))
                (Elem-map (listed_module ignores order project) ((visits _ _).1 i))
                (Elem-nonempty kept);
          test_there = kept;
          same_info = refl;
          same_module = refl;
        }

    from_group :
        (is : List TestInfo) (info : TestInfo) (t : TestState T H G) {n : Text}
        → t.info ≡ info
        → ⊥ ⊎ (Elem t (map fresh_test is) × (t.info.module_path ≡ n))
        → test_ignore_filter ignores project t.info ≡ true
        → Elem info is × IsKept (lookup project.name ignores) (full_name info)
    unfolding fresh_test
    from_group is info t e (inl h) f = absurd h
    from_group is info t e (inr (m, p)) f =
        let (x, k, w) = map-Elem fresh_test is m in
        (
          subst (λ i. Elem i is) (sym (ap (λ (s : TestState T H G). s.info) w) ∙ e) k,
          (test_ignore_filter_iff ignores project info).0
              (subst (λ i. test_ignore_filter ignores project i ≡ true) e f),
        )

    listed-Shown :
        (is : List TestInfo) (info : TestInfo)
        → Shown (listed_project ignores order is project) info
        → Elem info is × IsKept (lookup project.name ignores) (full_name info)
    unfolding listed_project listed_module group_by_module fresh_test
    listed-Shown is info s =
        let (m, e) = filter-Elem (λ m. not (is_empty m.tests)) _ s.module_there in
        let (g, k, w) =
          map-Elem (listed_module ignores order project) (order (group_by_module is)) m in
        let (j, f) =
          filter-Elem (λ t. test_ignore_filter ignores project t.info) g.1
            (subst (λ (u : ModuleState T H G). Elem s.shown_test u.tests) w s.test_there) in
        let i = Elem-Grouped (group_by_module is) ((visits _ _).0 k) j in
        from_group is info s.shown_test s.same_info
          (group_sound s.shown_test g.0 (map fresh_test is) [] i) f

infos-Elem :
    {F : Type 0} (info : TestInfo) (tests : List (TestInfo × F))
    → Elem info (infos tests)
    → (factory : F) × Elem (info, factory) tests
unfolding infos
infos-Elem info [] m = elim m [ ]
infos-Elem info ((i, f) ∷ tests) here = (f, here)
infos-Elem info ((i, f) ∷ tests) (there m) = let (g, k) = infos-Elem info tests m in (g, there k)

Elem-infos :
    {F : Type 0} (info : TestInfo) (factory : F) {tests : List (TestInfo × F)}
    → Elem (info, factory) tests
    → Elem info (infos tests)
unfolding infos
Elem-infos info f here = here
Elem-infos info f (there {y = (i, g)} m) = there (Elem-infos info f m)

module _ {T H G V F : Type 0} (order : Groups T H G → Groups T H G) (visits : Visits order)
    (ignores : Map (List Text)) (tests : List (TestInfo × F))
    (projects : List (ProjectConfig V)) where
  -- The tree has a project for each configured one, in its place, and shows under it the tests that a
  -- run of all tests selects for it, and no others.
  pub new_projects-selected :
      (i : ℕ) (project : ProjectConfig V)
      → get_elem? projects i ≡ some project
      → (shown : ProjectState T H G) × (get_elem?
            (new_projects ignores order projects (infos tests))
            i
          ≡ some shown)
        × (shown.name ≡ project.name)
        × ((info : TestInfo)
            → Shown shown info ↔ (
                (factory : F) × Elem
                  (record { project = project; info = info; factory = factory })
                  (select [] [] [] ignores tests projects)))
  unfolding new_projects
  new_projects-selected i project h = (
    listed_project ignores order (infos tests) project,
    get_elem?-map (listed_project ignores order (infos tests)) projects i h,
    unfold listed_project in refl,
    λ info. (
      λ s.
          let (m, k) = listed-Shown ignores order visits project (infos tests) info s in
          let (f, n) = infos-Elem info tests m in
          (
            f,
            (select-IsSelected [] [] [] ignores tests projects _).1 (
              n,
              get_elem?-Elem projects i h,
              record {
                project_wanted = inl refl;
                module_wanted = inl refl;
                test_wanted = inl refl;
                not_ignored = k;
              },
            ),
          ),
      λ s.
          let (n, l, w) = (select-IsSelected [] [] [] ignores tests projects _).0 s.1 in
          Shown-listed ignores order visits project (infos tests) info (Elem-infos info s.0 n)
            w.not_ignored,
    ),
  )
