-- ===== src/Examples/Terminal.antt =====
-- The list, the model and the loop of the terminal interface, tanu-tui/src/lib.rs and widget/list.rs, at
-- concrete inputs.
use tanu.Prelude.{
  ℕ, ◌++◌, ◌+◌, ◌-◌, true, false, Bool, List, [], ◌∷◌, Option, none, some, Text, codes, Result, ok,
  err, ◌≡◌, ◌↔◌, refl, get_elem?, unwrap_or, Elem, Map,
}
use tanu.Config.{ProjectConfig, default_project}
use tanu.Runner.{TestInfo, http, call}
use tanu.Runner.Options.{infos}
use tanu.Runner.Plan.{select}
use tanu.Tui.{executed, ProjectState}
use tanu.Tui.Rows.{result_for, select_test_case}
use tanu.Tui.Rows.Expand.{expand}
use tanu.Tui.Rows.Selected.{rows, select_test_case-rows}
use tanu.Tui.Rows.Expanded.{by_projects, expand-by_projects}
use tanu.Tui.Listing.{new_projects}
use tanu.Tui.Listing.Shown.{Shown, new_projects-selected}
use tanu.Tui.Model.{selection, ListOps}
use tanu.Tui.Model.Keys.{handle_key, KeyCode, char, others}
use tanu.Tui.Runtime.{Runtime, Tick, cmds_tick, runner_event, key_event, new_model, run, turn}
use tanu.Tui.Runtime.Queue.{on_way, all_asked, run-on_way}
use tanu.Tui.Runtime.Turns.{run-IsFocused}
use tanu.Tui.Model.Focus.{IsFocused}
use tanu.Tui.Runtime.Collected.{Collected}
use tanu.Examples.Interface.{info, started, result, test_state, dev}

-- a project with a module, whose test is expanded and has one call
abbrev open_dev : ProjectState ℕ ℕ ℕ
open_dev = record dev {
  modules =
      record {
        project_name = codes "dev";
        name = codes "user";
        expanded = true;
        tests = record test_state { expanded = true; execution_state = executed result } ∷ [];
        execution_state = executed result;
      }
      ∷ [];
}

select_test_case-rows_example :
    select_test_case (result ∷ []) (some 3) (open_dev ∷ [])
    ≡ get_elem? (rows (result ∷ []) (open_dev ∷ [])) 3
select_test_case-rows_example = select_test_case-rows (result ∷ []) 3 (open_dev ∷ [])

expand-by_projects_example :
    expand (result ∷ []) (some 1) (open_dev ∷ [])
    ≡ unwrap_or (get_elem? (by_projects (result ∷ []) (open_dev ∷ [])) 1) (open_dev ∷ [])
unfolding result_for
expand-by_projects_example = expand-by_projects (result ∷ []) 1 (open_dev ∷ [])

abbrev logout : TestInfo
logout = record info { name = codes "logout" }

abbrev registered : List (TestInfo × ℕ)
registered = (info, 1) ∷ (logout, 2) ∷ []

abbrev project : ProjectConfig ℕ
project = default_project (codes "dev")

abbrev ignores : Map (List Text)
ignores = (codes "dev", codes "user::logout" ∷ []) ∷ []

new_projects-selected_example :
    (shown : ProjectState ℕ ℕ ℕ) × (get_elem?
        (new_projects ignores (λ gs. gs) (project ∷ []) (infos registered))
        0
      ≡ some shown)
    × (shown.name ≡ project.name)
    × ((test : TestInfo)
        → Shown shown test ↔ (
            (factory : ℕ) × Elem
              (record { project = project; info = test; factory = factory })
              (select [] [] [] ignores registered (project ∷ []))))
new_projects-selected_example =
    new_projects-selected (λ gs. gs) (λ gs g. (λ m. m, λ m. m)) ignores registered (project ∷ []) 0
      project refl

-- a list state that is the selected row
abbrev list_ops : ListOps (Option ℕ)
list_ops = record {
  selected = λ l. l;
  select = λ i l. i;
  select_next = λ l. some (unwrap_or l 0 + 1);
  select_previous = λ l. some (unwrap_or l 0 - 1);
  select_first = λ l. some 0;
  select_last = λ l. some 9;
}

abbrev first_runtime : Runtime ℕ ℕ ℕ (Option ℕ) ℕ ℕ
unfolding new_model
first_runtime = record {
  should_exit = false;
  model = new_model list_ops none 0 (open_dev ∷ []);
  cmds = [];
  sent = [];
  test_results_buffer = [];
}

abbrev press : KeyCode → Bool × Tick ℕ ℕ ℕ
press code =
    (false, key_event (ok (80, 24)) (record { is_press = true; code = code; modifiers = others }))

-- both kinds of execution are asked for, the first command is sent, and the test runs
abbrev ticks : List (Bool × Tick ℕ ℕ ℕ)
ticks =
    press (char 50)
    ∷ press (char 49)
    ∷ (false, cmds_tick)
    ∷ (false, runner_event started)
    ∷ (false, runner_event (record started { body = call (http 8) }))
    ∷ []

abbrev reached : Result Text (Runtime ℕ ℕ ℕ (Option ℕ) ℕ ℕ)
unfolding run
reached = run list_ops (λ e w. w) 0 (λ t. t + 1) ticks first_runtime

abbrev got : Result Text (Runtime ℕ ℕ ℕ (Option ℕ) ℕ ℕ) → Runtime ℕ ℕ ℕ (Option ℕ) ℕ ℕ
got (ok r) = r
got (err e) = first_runtime

run-on_way_example :
    on_way (got reached)
    ≡ on_way first_runtime ++ all_asked list_ops (λ e w. w) 0 (λ t. t + 1) ticks first_runtime
unfolding reached first_runtime turn selection handle_key
run-on_way_example =
    run-on_way list_ops (λ e w. w) 0 (λ t. t + 1) ticks first_runtime (got reached) refl

run-IsFocused_example : IsFocused (got reached).model
unfolding reached first_runtime turn selection handle_key new_model
run-IsFocused_example =
    run-IsFocused list_ops (λ e w. w) 0 (λ t. t + 1) ticks first_runtime (got reached) refl refl
