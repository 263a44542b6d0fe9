-- ===== src/Tui.antt =====
-- The execution states of the terminal interface: `ExecutionStateController` and its data, of
-- tanu-tui/src/widget/list.rs. `H` and `G` are the logs of a HTTP and of a gRPC call; the state of a
-- throbber is the parameter `T`, with how it begins and goes on.
pub mod Marks
pub mod Throbber
pub mod Starts
pub mod Verdicts
pub mod Rows
pub mod Listing
pub mod Info
pub mod Model
pub mod Runtime
use tanu.Prelude.{
  ℕ, ℤ, pos, Bool, true, false, not, List, [], ◌∷◌, map, Option, none, some, Text, codes, text_eq,
  Result, ok, err, is_err, is_none, any, ◌&&◌, if◌then◌else◌,
}
use tanu.Runner.{TestInfo, Test, error_returned}

pub record TestResult (H G : Type 0) : Type 0 where
  pub project_name : Text
  pub module_name : Text
  pub name : Text
  pub logs : List H
  pub grpc_logs : List G
  pub test : Option Test

pub data ExecutionState (T H G : Type 0) : Type 0 where
  initialized : ExecutionState T H G
  executing : T → ExecutionState T H G
  executed : TestResult H G → ExecutionState T H G

pub record TestState (T H G : Type 0) : Type 0 where
  pub info : TestInfo
  pub expanded : Bool
  pub execution_state : ExecutionState T H G

pub record ModuleState (T H G : Type 0) : Type 0 where
  pub project_name : Text
  pub name : Text
  pub expanded : Bool
  pub tests : List (TestState T H G)
  pub execution_state : ExecutionState T H G

pub record ProjectState (T H G : Type 0) : Type 0 where
  pub name : Text
  pub expanded : Bool
  pub modules : List (ModuleState T H G)
  pub execution_state : ExecutionState T H G

pub record TestCaseSelector : Type 0 where
  pub project : Text
  pub module_name : Option Text  -- the field `module`
  pub test : Option Text
  pub http_call_index : Option ℕ
  pub grpc_call_index : Option ℕ

-- `iter_mut().filter(p).for_each(f)`
abbrev pub map_where : {A : Type 0} → (A → Bool) → (A → A) → List A → List A
map_where p f = map (λ x. if p x then f x else x)

abbrev pub default_info : TestInfo
default_info = record {
  module_path = [];
  name = [];
  serial_group = none;
  line = 0;
  ordered = false;
}

-- what `all` asks of the result of a test
unfoldable pub is_ok : {H G : Type 0} → TestResult H G → Bool
is_ok r = elim r.test [ none ↦ false | some test ↦ not (is_err test.result) ]

module _ {T H G : Type 0} where
  -- the result under which a module or a project is shown
  unfoldable pub overall : Text → Text → Bool → ExecutionState T H G
  overall project_name module_name ok_ = executed (record {
    project_name = project_name;
    module_name = module_name;
    name = [];
    logs = [];
    grpc_logs = [];
    test = some (record {
      info = default_info;
      worker_id = pos 0;
      result = if ok_ then ok tt else err (error_returned (codes "Execution failed"));
    });
  })

  -- the `all` over execution states: `ok`, and `still_executing`; it stops where a test is not ok
  scan : List (ExecutionState T H G) → Bool × Bool
  unfolding is_ok
  scan [] = (true, false)
  scan (initialized ∷ ss) = (false, true)
  scan (executing t ∷ ss) = (false, true)
  scan (executed r ∷ ss) = let rest = scan ss in if is_ok r then rest else (false, false)

  settle : Bool × Bool → (Bool → ExecutionState T H G) → ExecutionState T H G → ExecutionState T H G
  settle (ok_, still_executing) result old = if not still_executing then result ok_ else old

  unfoldable pub on_module_updated : ModuleState T H G → ModuleState T H G
  unfolding scan settle overall
  on_module_updated m = record m {
    execution_state =
        settle (scan (map (λ t. t.execution_state) m.tests)) (overall m.project_name m.name)
          m.execution_state;
  }

  unfoldable pub on_project_updated : ProjectState T H G → ProjectState T H G
  unfolding scan settle overall
  on_project_updated p = record p {
    execution_state =
        settle (scan (map (λ m. m.execution_state) p.modules)) (overall p.name [])
          p.execution_state;
  }

  -- `execution_state.executed(test_result.clone())`
  unfoldable pub set_executed : TestResult H G → TestState T H G → TestState T H G
  set_executed r t = record t { execution_state = executed r }

  is_named : Text → TestState T H G → Bool
  unfolding text_eq
  is_named name t = text_eq t.info.name name

  update_module : Text → TestResult H G → ModuleState T H G → ModuleState T H G
  unfolding set_executed on_module_updated is_named
  update_module name r m =
      let m' = record m { tests = map_where (is_named name) (set_executed r) m.tests } in
      if any (is_named name) m.tests then on_module_updated m' else m'

  -- whether a test of the module is updated
  has_test : Text → Text → ModuleState T H G → Bool
  unfolding is_named text_eq
  has_test module_name name m = text_eq m.name module_name && any (is_named name) m.tests

  update_project : Text → Text → TestResult H G → ProjectState T H G → ProjectState T H G
  unfolding update_module has_test on_project_updated text_eq
  update_project module_name name r p =
      let p' = record p {
        modules = map_where (λ m. text_eq m.name module_name) (update_module name r) p.modules;
      } in
      if any (has_test module_name name) p.modules then on_project_updated p' else p'

  unfoldable pub on_test_updated :
      Text → Text → Text → TestResult H G → List (ProjectState T H G) → List (ProjectState T H G)
  unfolding update_project text_eq
  on_test_updated project_name module_name name r =
      map_where (λ p. text_eq p.name project_name) (update_project module_name name r)

module _ {T H G : Type 0} (begun : T) where
  unfoldable pub execute_test : TestState T H G → TestState T H G
  execute_test t = record t { execution_state = executing begun }

  unfoldable pub execute_module : ModuleState T H G → ModuleState T H G
  unfolding execute_test
  execute_module m = record m {
    execution_state = executing begun;
    tests = map execute_test m.tests;
  }

  unfoldable pub execute_project : ProjectState T H G → ProjectState T H G
  unfolding execute_module
  execute_project p = record p {
    execution_state = executing begun;
    modules = map execute_module p.modules;
  }

  unfoldable pub execute_all : List (ProjectState T H G) → List (ProjectState T H G)
  unfolding execute_project
  execute_all projects = map execute_project projects

  -- the body of the loop over the modules of the selected name
  execute_in_module : Option Text → ModuleState T H G → ModuleState T H G
  unfolding execute_module execute_test is_named
  execute_in_module none m = execute_module m
  execute_in_module (some test) m = record m {
    tests = map_where (is_named test) execute_test m.tests;
  }

  execute_in_project : TestCaseSelector → ProjectState T H G → ProjectState T H G
  unfolding execute_project execute_in_module text_eq
  execute_in_project selector p = elim selector.module_name [
    | none ↦ (if is_none selector.test then execute_project p else p)
    | some module_name ↦ record p {
      modules =
          map_where (λ m. text_eq m.name module_name) (execute_in_module selector.test) p.modules;
    }
  ]

  unfoldable pub execute_specified :
      TestCaseSelector → List (ProjectState T H G) → List (ProjectState T H G)
  unfolding execute_in_project text_eq
  execute_specified selector =
      map_where (λ p. text_eq p.name selector.project) (execute_in_project selector)
