-- ===== src/Runner/Plan.antt =====
-- How `Runner::run` of tanu-core/src/runner.rs selects the tests, sorts the ordered ones and groups
-- them. `F` is the type of the test factories. A hash map of groups is a list of groups in the order
-- of their first test; the code goes through the map in an order that it does not choose.
pub mod Order
pub mod Grouping
pub mod Selection
use tanu.Prelude.{
  ℕ, Bool, true, false, not, ◌&&◌, List, [], ◌∷◌, ◌++◌, map, Option, none, some, Text, codes,
  text_eq, filter, is_empty, unwrap_or, if◌then◌else◌, Map,
}
use tanu.Config.{ProjectConfig, default_project}
use tanu.Runner.{TestInfo, colons}
use tanu.Runner.Filters.{project_filter, module_filter, test_name_filter, test_ignore_filter}
use Order.{key_le}

pub record Selected (V F : Type 0) : Type 0 where
  pub project : ProjectConfig V
  pub info : TestInfo
  pub factory : F

-- `projects`, or one default project where there are none
unfoldable pub effective_projects : {V : Type 0} → List (ProjectConfig V) → List (ProjectConfig V)
effective_projects projects =
    if is_empty projects then default_project (codes "default") ∷ [] else projects

module _ {V F : Type 0} where
  with_projects : TestInfo → F → List (ProjectConfig V) → List (Selected V F)
  with_projects info factory projects =
      map (λ p. record { project = p; info = info; factory = factory }) projects

  -- `cartesian_product`: for each test every project
  unfoldable pub cartesian_product :
      List (TestInfo × F) → List (ProjectConfig V) → List (Selected V F)
  unfolding with_projects
  cartesian_product [] projects = []
  cartesian_product ((info, factory) ∷ tests) projects =
      with_projects info factory projects ++ cartesian_product tests projects

  -- the chain of filters
  unfoldable pub select :
      List Text
      → List Text
      → List Text
      → Map (List Text)
      → List (TestInfo × F)
      → List (ProjectConfig V)
      → List (Selected V F)
  unfolding cartesian_product
  select project_names module_names test_names ignores tests projects =
      filter (λ t. test_ignore_filter ignores t.project t.info)
        (filter (λ t. project_filter project_names t.project t.info)
          (filter (λ t. module_filter module_names t.project t.info)
            (filter (λ t. test_name_filter test_names t.project t.info)
              (cartesian_product tests projects))))

  insert_by_key : Selected V F → List (Selected V F) → List (Selected V F)
  insert_by_key x [] = x ∷ []
  insert_by_key x (y ∷ ys) =
      let rest = insert_by_key x ys in
      if key_le (x.info.serial_group, x.info.line) (y.info.serial_group, y.info.line)
      then x ∷ y ∷ ys
      else y ∷ rest

  -- `sort_by_key`, which is stable
  unfoldable pub sort_by_key : List (Selected V F) → List (Selected V F)
  unfolding insert_by_key
  sort_by_key [] = []
  sort_by_key (x ∷ xs) = insert_by_key x (sort_by_key xs)

  -- format!("{}::{}", project.name, group), where no group is the empty text
  unfoldable pub group_key : Selected V F → Text
  group_key t = t.project.name ++ colons ++ unwrap_or t.info.serial_group (codes "")

  -- `entry(key).or_default().push(t)`
  push_group : Text → Selected V F → Map (List (Selected V F)) → Map (List (Selected V F))
  push_group k t [] = (k, t ∷ []) ∷ []
  push_group k t ((j, ts) ∷ gs) =
      let rest = push_group k t gs in
      if text_eq j k then (j, ts ++ (t ∷ [])) ∷ gs else (j, ts) ∷ rest

  group_loop : List (Selected V F) → Map (List (Selected V F)) → Map (List (Selected V F))
  unfolding push_group
  group_loop [] groups = groups
  group_loop (t ∷ ts) groups = group_loop ts (push_group (group_key t) t groups)

  unfoldable pub group : List (Selected V F) → Map (List (Selected V F))
  unfolding group_loop
  group ts = group_loop ts []

  unfoldable pub ordered_groups : List (Selected V F) → Map (List (Selected V F))
  unfolding sort_by_key group
  ordered_groups all_tests = group (sort_by_key (filter (λ t. t.info.ordered) all_tests))

  unfoldable pub non_ordered_tests : List (Selected V F) → List (Selected V F)
  non_ordered_tests all_tests = filter (λ t. not t.info.ordered) all_tests
