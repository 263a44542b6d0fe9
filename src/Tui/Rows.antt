-- ===== src/Tui/Rows.antt =====
-- `TestListState` of tanu-tui/src/widget/list.rs: the selected row, expanding, and the lines that are
-- drawn. The loops count rows in `n` and return where `n` is the selected one: a walk either has found
-- it, or goes on from a count. The state of ratatui's list enters through what `selected` returns.
pub mod Expand
pub mod Selected
pub mod Expanded
pub mod Lines
use tanu.Prelude.{
  ◌&&◌, ℕ, zero, suc, ◌+◌, ◌==◌, Bool, true, false, not, List, [], ◌∷◌, ◌++◌, map, Option, none,
  some, Text, text_eq, length, or_else, if◌then◌else◌, ltb,
}
use tanu.Runner.{full_name, unique_name, colons}
use tanu.Tui.{
  TestResult, ExecutionState, initialized, executing, executed, TestState, ModuleState,
  ProjectState, TestCaseSelector,
}

-- `TestResult::unique_name`
unfoldable pub result_name : {H G : Type 0} → TestResult H G → Text
result_name r = r.project_name ++ colons ++ r.module_name ++ colons ++ r.name

-- the map by unique name, in which a later result replaces an earlier one
unfoldable pub result_of : {H G : Type 0} → Text → List (TestResult H G) → Option (TestResult H G)
unfolding result_name text_eq
result_of name [] = none
result_of name (r ∷ rs) =
    or_else (result_of name rs) (if text_eq (result_name r) name then some r else none)

abbrev pub http_calls : {H G : Type 0} → Option (TestResult H G) → List H
http_calls none = []
http_calls (some r) = r.logs

abbrev pub grpc_calls : {H G : Type 0} → Option (TestResult H G) → List G
grpc_calls none = []
grpc_calls (some r) = r.grpc_logs

abbrev pub sum : List ℕ → ℕ
sum [] = 0
sum (n ∷ ns) = n + sum ns

-- a walk over a part of the rows: it has found the selected row, or goes on from a count
pub data Walk (A : Type 0) : Type 0 where
  found : A → Walk A
  goes_on : ℕ → Walk A

-- where the selected row is not yet found, the loop goes on
abbrev pub or_from : {A : Type 0} → Walk A → (ℕ → Walk A) → Walk A
or_from (found a) f = found a
or_from (goes_on n) f = f n

-- what a walk over the whole list finds
abbrev pub picked : {A : Type 0} → Walk A → Option A
picked (found a) = some a
picked (goes_on n) = none

-- the rows below one that is expanded
abbrev pub below : {A : Type 0} → Bool → (ℕ → Walk A) → ℕ → Walk A
below expanded f n = if expanded then f n else goes_on n

-- `for _ in calls { n += 1 }`
abbrev pub count_calls : {A : Type 0} → ℕ → List A → ℕ
count_calls n [] = n
count_calls n (c ∷ cs) = count_calls (n + 1) cs

-- the rows of the calls, for `select_test_case`; `i` is the index of the first of them
select_calls : {A : Type 0} → (ℕ → TestCaseSelector) → ℕ → ℕ → ℕ → List A → Walk TestCaseSelector
select_calls mark selected i n [] = goes_on n
select_calls mark selected i n (c ∷ cs) = elim (n == selected) [
  | true ↦ found (mark i)
  | false ↦ select_calls mark selected (i + 1) (n + 1) cs
]

module _ {T H G : Type 0} where
  abbrev pub test_selector : Text → Text → TestState T H G → TestCaseSelector
  unfolding full_name
  test_selector project module_name t = record {
    project = project;
    module_name = some module_name;
    test = some (full_name t.info);
    http_call_index = none;
    grpc_call_index = none;
  }

  abbrev pub http_selector : Text → Text → TestState T H G → ℕ → TestCaseSelector
  http_selector project module_name t i = record (test_selector project module_name t) {
    http_call_index = some i;
  }

  abbrev pub grpc_selector : Text → Text → TestState T H G → ℕ → TestCaseSelector
  grpc_selector project module_name t i = record (test_selector project module_name t) {
    grpc_call_index = some i;
  }

  abbrev pub module_row : Text → ModuleState T H G → TestCaseSelector
  module_row project m = record {
    project = project;
    module_name = some m.name;
    test = none;
    http_call_index = none;
    grpc_call_index = none;
  }

  abbrev pub project_row : ProjectState T H G → TestCaseSelector
  project_row p = record {
    project = p.name;
    module_name = none;
    test = none;
    http_call_index = none;
    grpc_call_index = none;
  }

module _ {T H G : Type 0} (results : List (TestResult H G)) where
  unfoldable pub result_for : Text → TestState T H G → Option (TestResult H G)
  unfolding result_of unique_name
  result_for project t = result_of (unique_name project t.info) results

  -- the row of a test; a test with a single call has that call selected
  unfoldable pub test_row : Text → Text → TestState T H G → TestCaseSelector
  test_row project module_name t =
      let https = length (http_calls (result_for project t)) in
      let grpcs = length (grpc_calls (result_for project t)) in
      record (test_selector project module_name t) {
        http_call_index = if (https + grpcs == 1) && (https == 1) then some 0 else none;
        grpc_call_index = if (https + grpcs == 1) && (grpcs == 1) then some 0 else none;
      }

  select_test_calls : ℕ → Text → Text → ℕ → TestState T H G → Walk TestCaseSelector
  unfolding select_calls
  select_test_calls selected project module_name n t =
      below t.expanded
        (λ n.
          or_from
            (select_calls (http_selector project module_name t) selected 0 n
              (http_calls (result_for project t)))
            (λ k.
              select_calls (grpc_selector project module_name t) selected 0 k
                (grpc_calls (result_for project t))))
        n

  select_tests : ℕ → Text → Text → ℕ → List (TestState T H G) → Walk TestCaseSelector
  unfolding select_test_calls test_row
  select_tests selected project module_name n [] = goes_on n
  select_tests selected project module_name n (t ∷ ts) = elim (n == selected) [
    | true ↦ found (test_row project module_name t)
    | false ↦
        or_from (select_test_calls selected project module_name (n + 1) t)
          (λ k. select_tests selected project module_name k ts)
  ]

  select_modules : ℕ → Text → ℕ → List (ModuleState T H G) → Walk TestCaseSelector
  unfolding select_tests
  select_modules selected project n [] = goes_on n
  select_modules selected project n (m ∷ ms) = elim (n == selected) [
    | true ↦ found (module_row project m)
    | false ↦
        or_from (below m.expanded (λ n. select_tests selected project m.name n m.tests) (n + 1))
          (λ k. select_modules selected project k ms)
  ]

  select_projects : ℕ → ℕ → List (ProjectState T H G) → Walk TestCaseSelector
  unfolding select_modules
  select_projects selected n [] = goes_on n
  select_projects selected n (p ∷ ps) = elim (n == selected) [
    | true ↦ found (project_row p)
    | false ↦
        or_from (below p.expanded (λ n. select_modules selected p.name n p.modules) (n + 1))
          (λ k. select_projects selected k ps)
  ]

  unfoldable pub select_test_case : Option ℕ → List (ProjectState T H G) → Option TestCaseSelector
  unfolding select_projects
  select_test_case none ps = none
  select_test_case (some selected) ps = picked (select_projects selected 0 ps)

-- `TestListState::len`
unfoldable pub list_len : {T H G : Type 0} → List (ProjectState T H G) → ℕ
list_len ps = sum (map (λ p. sum (map (λ m. length m.tests) p.modules)) ps)
