-- ===== src/Tui/Rows/Lines.antt =====
-- The lines that are drawn for the list, `to_lines_recursively` of tanu-tui/src/widget/list.rs, against
-- the rows that are selected. Styles, and the URLs and status codes of calls, are left out.
use tanu.Prelude.{
  ℕ, ◌+◌, ltb, Bool, List, [], ◌∷◌, ◌++◌, Option, none, some, Text, length, All, if◌then◌else◌, ◌≡◌,
  get_elem?,
}
use tanu.Tui.{
  TestResult, ExecutionState, initialized, executing, executed, TestState, ModuleState,
  ProjectState, TestCaseSelector, is_ok,
}
use tanu.Tui.Rows.{
  http_calls, grpc_calls, result_for, test_row, module_row, project_row, http_selector,
  grpc_selector,
}

pub data Symbol (T : Type 0) : Type 0 where
  circle : Symbol T
  throbber : T → Symbol T
  check : Symbol T
  cross : Symbol T

unfoldable pub symbol_test_result : {T H G : Type 0} → ExecutionState T H G → Symbol T
unfolding is_ok
symbol_test_result initialized = circle
symbol_test_result (executing t) = throbber t
symbol_test_result (executed r) = if is_ok r then check else cross

-- an icon says whether the row is expanded
pub data Line (T H G : Type 0) : Type 0 where
  project_line : Bool → Symbol T → Text → Line T H G
  module_line : Bool → Symbol T → Text → Line T H G
  test_line : Option Bool → Symbol T → Text → Line T H G
  http_line : H → Line T H G
  grpc_line : G → Line T H G

module _ {T H G : Type 0} where
  -- the result that a row draws
  abbrev pub drawn_result : TestState T H G → Option (TestResult H G)
  drawn_result t = elim t.execution_state [
    | initialized ↦ none
    | executing x ↦ none
    | executed r ↦ some r
  ]

  abbrev http_lines : List H → List (Line T H G)
  http_lines [] = []
  http_lines (c ∷ cs) = http_line c ∷ http_lines cs

  abbrev grpc_lines : List G → List (Line T H G)
  grpc_lines [] = []
  grpc_lines (c ∷ cs) = grpc_line c ∷ grpc_lines cs

  -- `TestState::to_lines_recursively`
  unfoldable pub test_lines : TestState T H G → List (Line T H G)
  unfolding symbol_test_result
  test_lines t =
      let https = http_calls (drawn_result t) in
      let grpcs = grpc_calls (drawn_result t) in
      test_line (if ltb 1 (length https + length grpcs) then some t.expanded else none)
        (symbol_test_result t.execution_state) t.info.name
      ∷ (if t.expanded then http_lines https ++ grpc_lines grpcs else [])

  lines_of_tests : List (TestState T H G) → List (Line T H G)
  unfolding test_lines
  lines_of_tests [] = []
  lines_of_tests (t ∷ ts) = test_lines t ++ lines_of_tests ts

  unfoldable pub module_lines : ModuleState T H G → List (Line T H G)
  unfolding lines_of_tests symbol_test_result
  module_lines m =
      module_line m.expanded (symbol_test_result m.execution_state) m.name
      ∷ (if m.expanded then lines_of_tests m.tests else [])

  lines_of_modules : List (ModuleState T H G) → List (Line T H G)
  unfolding module_lines
  lines_of_modules [] = []
  lines_of_modules (m ∷ ms) = module_lines m ++ lines_of_modules ms

  unfoldable pub project_lines : ProjectState T H G → List (Line T H G)
  unfolding lines_of_modules symbol_test_result
  project_lines p =
      project_line p.expanded (symbol_test_result p.execution_state) p.name
      ∷ (if p.expanded then lines_of_modules p.modules else [])

  -- `TestListWidget::new`
  unfoldable pub lines : List (ProjectState T H G) → List (Line T H G)
  unfolding project_lines
  lines [] = []
  lines (p ∷ ps) = project_lines p ++ lines ps

module _ {T H G : Type 0} (results : List (TestResult H G)) where
  -- the line shows the row; that of a call has the call at the row's index, of the latest result of the
  -- row's test
  pub data Shows : Line T H G → TestCaseSelector → Type 0 where
    shows_project :
        (x : Symbol T) (p : ProjectState T H G)
        → Shows (project_line p.expanded x p.name) (project_row p)
    shows_module :
        (x : Symbol T) (project : Text) (m : ModuleState T H G)
        → Shows (module_line m.expanded x m.name) (module_row project m)
    shows_test :
        (e : Option Bool) (x : Symbol T) (project module_name : Text) (t : TestState T H G)
        → Shows (test_line e x t.info.name) (test_row results project module_name t)
    shows_http :
        (project module_name : Text) (t : TestState T H G) (i : ℕ) (c : H)
        → get_elem? (http_calls (result_for results project t)) i ≡ some c
        → Shows (http_line c) (http_selector project module_name t i)
    shows_grpc :
        (project module_name : Text) (t : TestState T H G) (i : ℕ) (c : G)
        → get_elem? (grpc_calls (result_for results project t)) i ≡ some c
        → Shows (grpc_line c) (grpc_selector project module_name t i)

  -- line by line, as many lines as rows
  abbrev pub Draws : List (Line T H G) → List TestCaseSelector → Type 0
  Draws [] [] = Unit
  Draws [] (x ∷ xs) = ⊥
  Draws (l ∷ ls) [] = ⊥
  Draws (l ∷ ls) (x ∷ xs) = Shows l x × Draws ls xs

  -- the calls of the result that a test shows are those of its result in the list of results
  abbrev pub IsCurrent : Text → TestState T H G → Type 0
  IsCurrent project t =
      (http_calls (drawn_result t) ≡ http_calls (result_for results project t))
      × (grpc_calls (drawn_result t) ≡ grpc_calls (result_for results project t))

  abbrev pub AllCurrent : List (ProjectState T H G) → Type 0
  AllCurrent = All (λ p. All (λ m. All (IsCurrent p.name) m.tests) p.modules)
