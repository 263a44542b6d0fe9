-- ===== src/Tui/Throbber.antt =====
-- The throbbers of what is executing: `update_throbber` of tanu-tui/src/widget/list.rs.
use tanu.Prelude.{List, map}
use tanu.Tui.{
  ExecutionState, initialized, executing, executed, TestState, ModuleState, ProjectState,
}

module _ {T H G : Type 0} (calc_next : T → T) where
  tick : ExecutionState T H G → ExecutionState T H G
  tick initialized = initialized
  tick (executing t) = executing (calc_next t)
  tick (executed r) = executed r

  tick_test : TestState T H G → TestState T H G
  unfolding tick
  tick_test t = record t { execution_state = tick t.execution_state }

  tick_module : ModuleState T H G → ModuleState T H G
  unfolding tick tick_test
  tick_module m = record m {
    execution_state = tick m.execution_state;
    tests = map tick_test m.tests;
  }

  tick_project : ProjectState T H G → ProjectState T H G
  unfolding tick tick_module
  tick_project p = record p {
    execution_state = tick p.execution_state;
    modules = map tick_module p.modules;
  }

  unfoldable pub update_throbber : List (ProjectState T H G) → List (ProjectState T H G)
  unfolding tick_project
  update_throbber projects = map tick_project projects
