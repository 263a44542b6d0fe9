-- ===== src/Tui/Listing.antt =====
-- `TestListState::new` of tanu-tui/src/widget/list.rs: the tree of projects, modules and tests that the
-- interface begins with. `into_group_map_by` of itertools gives a hash map; the order in which a
-- project goes through it is the parameter `order`.
pub mod Groups
pub mod Shown
use tanu.Prelude.{
  true, false, not, List, [], ◌∷◌, ◌++◌, map, Text, text_eq, filter, is_empty, if◌then◌else◌, Map,
}
use tanu.Config.{ProjectConfig}
use tanu.Runner.{TestInfo}
use tanu.Runner.Filters.{test_ignore_filter}
use tanu.Tui.{TestState, ModuleState, ProjectState, initialized}

-- the tests of each module
abbrev pub Groups : Type 0 → Type 0 → Type 0 → Type 0
Groups T H G = List (Text × List (TestState T H G))

module _ {T H G : Type 0} where
  unfoldable pub fresh_test : TestInfo → TestState T H G
  fresh_test info = record { info = info; expanded = false; execution_state = initialized }

  -- `into_group_map_by(|test| test.info.module.clone())`: each test goes to the end of its group
  push_module : TestState T H G → Groups T H G → Groups T H G
  push_module t [] = (t.info.module_path, t ∷ []) ∷ []
  push_module t ((j, ts) ∷ gs) =
      let rest = push_module t gs in
      if text_eq j t.info.module_path then (j, ts ++ (t ∷ [])) ∷ gs else (j, ts) ∷ rest

  unfoldable pub group_into : List (TestState T H G) → Groups T H G → Groups T H G
  unfolding push_module
  group_into [] gs = gs
  group_into (t ∷ ts) gs = group_into ts (push_module t gs)

  unfoldable pub group_by_module : List TestInfo → Groups T H G
  unfolding group_into fresh_test
  group_by_module infos = group_into (map fresh_test infos) []

  module _ {V : Type 0} (ignores : Map (List Text)) (order : Groups T H G → Groups T H G) where
    listed_module : ProjectConfig V → Text × List (TestState T H G) → ModuleState T H G
    unfolding test_ignore_filter
    listed_module project (name, tests) = record {
      project_name = project.name;
      name = name;
      expanded = true;
      tests = filter (λ t. test_ignore_filter ignores project t.info) tests;
      execution_state = initialized;
    }

    unfoldable pub listed_project : List TestInfo → ProjectConfig V → ProjectState T H G
    unfolding listed_module group_by_module
    listed_project infos project = record {
      name = project.name;
      expanded = true;
      modules =
          filter (λ m. not (is_empty m.tests))
            (map (listed_module project) (order (group_by_module infos)));
      execution_state = initialized;
    }

    -- the projects of `TestListState::new`
    unfoldable pub new_projects : List (ProjectConfig V) → List TestInfo → List (ProjectState T H G)
    unfolding listed_project
    new_projects projects infos = map (listed_project infos) projects
