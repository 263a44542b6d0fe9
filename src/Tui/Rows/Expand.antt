-- ===== src/Tui/Rows/Expand.antt =====
-- `expand` of `TestListState`, in tanu-tui/src/widget/list.rs.
use tanu.Prelude.{
  ℕ, ◌+◌, ◌==◌, true, false, not, List, [], ◌∷◌, Option, none, some, Text, if◌then◌else◌,
}
use tanu.Tui.{TestResult, TestState, ModuleState, ProjectState}
use tanu.Tui.Rows.{Walk, found, goes_on, http_calls, grpc_calls, count_calls, result_for}

module _ {T H G : Type 0} (results : List (TestResult H G)) where
  -- `n` after the rows of the calls of a test, for `expand`
  unfoldable pub past_calls : Text → TestState T H G → ℕ → ℕ
  unfolding result_for
  past_calls project t n =
      if t.expanded
      then count_calls (count_calls n (http_calls (result_for results project t)))
          (grpc_calls (result_for results project t))
      else n

  unfoldable pub expand_tests :
      ℕ → Text → ℕ → List (TestState T H G) → Walk (List (TestState T H G))
  unfolding past_calls
  expand_tests selected project n [] = goes_on n
  expand_tests selected project n (t ∷ ts) = elim (n == selected) [
    | true ↦ found (record t { expanded = not t.expanded } ∷ ts)
    | false ↦ elim (expand_tests selected project (past_calls project t (n + 1)) ts) [
      | found us ↦ found (t ∷ us)
      | goes_on k ↦ goes_on k
    ]
  ]

  -- the rows below that of a module
  unfoldable pub expand_module : ℕ → Text → ℕ → ModuleState T H G → Walk (ModuleState T H G)
  unfolding expand_tests
  expand_module selected project n m = elim m.expanded [
    | true ↦ elim (expand_tests selected project n m.tests) [
      | found us ↦ found (record m { tests = us })
      | goes_on k ↦ goes_on k
    ]
    | false ↦ goes_on n
  ]

  unfoldable pub expand_modules :
      ℕ → Text → ℕ → List (ModuleState T H G) → Walk (List (ModuleState T H G))
  unfolding expand_module
  expand_modules selected project n [] = goes_on n
  expand_modules selected project n (m ∷ ms) = elim (n == selected) [
    | true ↦ found (record m { expanded = not m.expanded } ∷ ms)
    | false ↦ elim (expand_module selected project (n + 1) m) [
      | found u ↦ found (u ∷ ms)
      | goes_on k ↦ elim (expand_modules selected project k ms) [
        | found us ↦ found (m ∷ us)
        | goes_on j ↦ goes_on j
      ]
    ]
  ]

  -- the rows below that of a project
  unfoldable pub expand_project : ℕ → ℕ → ProjectState T H G → Walk (ProjectState T H G)
  unfolding expand_modules
  expand_project selected n p = elim p.expanded [
    | true ↦ elim (expand_modules selected p.name n p.modules) [
      | found us ↦ found (record p { modules = us })
      | goes_on k ↦ goes_on k
    ]
    | false ↦ goes_on n
  ]

  unfoldable pub expand_projects :
      ℕ → ℕ → List (ProjectState T H G) → Walk (List (ProjectState T H G))
  unfolding expand_project
  expand_projects selected n [] = goes_on n
  expand_projects selected n (p ∷ ps) = elim (n == selected) [
    | true ↦ found (record p { expanded = not p.expanded } ∷ ps)
    | false ↦ elim (expand_project selected (n + 1) p) [
      | found u ↦ found (u ∷ ps)
      | goes_on k ↦ elim (expand_projects selected k ps) [
        | found us ↦ found (p ∷ us)
        | goes_on j ↦ goes_on j
      ]
    ]
  ]

  unfoldable pub expand : Option ℕ → List (ProjectState T H G) → List (ProjectState T H G)
  unfolding expand_projects
  expand none ps = ps
  expand (some selected) ps = elim (expand_projects selected 0 ps) [
    | found us ↦ us
    | goes_on k ↦ ps
  ]
