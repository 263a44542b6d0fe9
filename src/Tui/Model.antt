-- ===== src/Tui/Model.antt =====
-- The model of the terminal interface and `update` of tanu-tui/src/lib.rs. The state of ratatui's list
-- is `L`, with its operations in a record, that of the logger's widget is `W`, and a mouse event is `M`.
-- The counter of frames is left out: nothing that is modelled reads it.
pub mod Focus
pub mod Clicks
pub mod Keys
pub mod Scrolling
pub mod Updates
use tanu.Prelude.{
  ℕ, zero, suc, ◌+◌, ◌-◌, ◌/◌, ◌%◌, ◌==◌, Bool, true, false, not, ◌&&◌, leb, List, [], ◌∷◌, Option,
  none, some, Text, codes, text_eq, Result, ok, err, map, filter, is_empty, if◌then◌else◌,
  unwrap_or, length,
}
use tanu.Config.{ProjectConfig}
use tanu.Runner.{TestInfo}
use tanu.Tui.{
  TestResult, initialized, TestState, ModuleState, ProjectState, TestCaseSelector, execute_all,
  execute_specified,
}
use tanu.Tui.Info.{
  CursorMovement, up, down, up_half_screen, down_half_screen, home, end, TabMovement, next, prev,
  InfoState, next_tab, prev_tab, scroll,
}
use tanu.Tui.Rows.{select_test_case}
use tanu.Tui.Rows.Expand.{expand}

pub data Pane : Type 0 where
  list_pane : Pane
  info_pane : Pane
  logger_pane : Pane

pub data Execution : Type 0 where
  one : Execution
  all : Execution

-- the events of the logger's widget that are sent to it
pub data WidgetEvent : Type 0 where
  down_key : WidgetEvent
  up_key : WidgetEvent
  left_key : WidgetEvent
  right_key : WidgetEvent
  space_key : WidgetEvent
  hide_key : WidgetEvent
  focus_key : WidgetEvent

-- ratatui's `ListState`
pub record ListOps (L : Type 0) : Type 0 where
  pub selected : L → Option ℕ
  pub select : Option ℕ → L → L
  pub select_next : L → L
  pub select_previous : L → L
  pub select_first : L → L
  pub select_last : L → L

pub record TestListState (T H G L : Type 0) : Type 0 where
  pub projects : List (ProjectState T H G)
  pub list_state : L

pub record Model (T H G L W M : Type 0) : Type 0 where
  pub maximizing : Bool
  pub current_pane : Pane
  pub current_exec : Option Execution
  pub test_cases_list : TestListState T H G L
  pub test_results : List (TestResult H G)
  pub info_state : InfoState
  pub logger_state : W
  pub click : Option M

pub data Message (M : Type 0) : Type 0 where
  maximize : Message M
  next_pane_message : Message M
  list_select : CursorMovement → Message M
  list_expand : Message M
  info_select : CursorMovement → Message M
  info_tab_select : TabMovement → Message M
  logger_select : WidgetEvent → Message M  -- the seven messages `LoggerSelect...`
  execute_one_message : Message M
  execute_all_message : Message M
  select_pane : M → Message M

pub data Command : Type 0 where
  execute_one : TestCaseSelector → Command
  execute_all_tests : Command

-- `self.current_pane as usize`, and `Pane::from_repr`
abbrev pane_index : Pane → ℕ
pane_index list_pane = 0
pane_index info_pane = 1
pane_index logger_pane = 2

abbrev pane_of : ℕ → Option Pane
pane_of i =
    if i == 0
    then some list_pane
    else if i == 1
    then some info_pane
    else if i == 2
    then some logger_pane
    else none

abbrev pub is_info : Pane → Bool
is_info list_pane = false
is_info info_pane = true
is_info logger_pane = false

module _ {T H G L W M : Type 0} where
  abbrev on_info : (InfoState → InfoState) → Model T H G L W M → Model T H G L W M
  on_info f m = record m { info_state = f m.info_state }

  unfoldable pub next_pane : Model T H G L W M → Model T H G L W M
  next_pane m =
      let pane = unwrap_or (pane_of ((pane_index m.current_pane + 1) % 3)) m.current_pane in
      record m { current_pane = pane; info_state = record m.info_state { focused = is_info pane } }

module _ {L : Type 0} (ops : ListOps L) where
  -- `list_state.select(Some(f(list_state.selected().unwrap_or_default())))`
  move_by : (ℕ → ℕ) → L → L
  move_by f s = ops.select (some (f (unwrap_or (ops.selected s) 0))) s

  move_cursor : ℕ → CursorMovement → L → L
  unfolding move_by
  move_cursor terminal_height down = ops.select_next
  move_cursor terminal_height up = ops.select_previous
  move_cursor terminal_height up_half_screen = move_by (λ i. i - terminal_height / 4)
  move_cursor terminal_height down_half_screen = move_by (λ i. i + terminal_height / 4)
  move_cursor terminal_height home = ops.select_first
  move_cursor terminal_height end = ops.select_last

module _ {T H G L W M : Type 0} (ops : ListOps L) where
  unfoldable pub selection : Model T H G L W M → Option TestCaseSelector
  unfolding select_test_case
  selection m =
      select_test_case m.test_results (ops.selected m.test_cases_list.list_state)
        m.test_cases_list.projects

  -- the last lines of `update`
  refresh : Model T H G L W M → Model T H G L W M
  refresh m = record m { info_state = record m.info_state { selected_test = selection m } }

module _ {T H G L W M : Type 0} (ops : ListOps L) (transition : WidgetEvent → W → W)
    (begun : T) where
  -- an execution that found something to execute
  execute_selected :
      Option TestCaseSelector → Model T H G L W M → Option Command × Model T H G L W M
  unfolding execute_specified
  execute_selected none m = (none, m)
  execute_selected (some selector) m = (
    some (execute_one selector),
    record m {
      test_cases_list = record m.test_cases_list {
        projects = execute_specified begun selector m.test_cases_list.projects;
      };
    },
  )

  -- the `match` on the message and what follows it
  handle : ℕ → Message M → Model T H G L W M → Option Command × Model T H G L W M
  unfolding execute_selected execute_all refresh move_cursor scroll next_tab prev_tab next_pane
      expand
  handle terminal_height maximize m =
      (none, refresh ops (record m { maximizing = not m.maximizing }))
  handle terminal_height next_pane_message m = (none, refresh ops (next_pane m))
  handle terminal_height (list_select movement) m = (
    none,
    refresh ops (record m {
      test_cases_list = record m.test_cases_list {
        list_state = move_cursor ops terminal_height movement m.test_cases_list.list_state;
      };
    }),
  )
  handle terminal_height list_expand m = (
    none,
    refresh ops (record m {
      test_cases_list = record m.test_cases_list {
        projects =
            expand m.test_results (ops.selected m.test_cases_list.list_state)
              m.test_cases_list.projects;
      };
    }),
  )
  handle terminal_height (info_select movement) m =
      (none, refresh ops (on_info (scroll terminal_height movement) m))
  handle terminal_height (info_tab_select next) m = (none, refresh ops (on_info next_tab m))
  handle terminal_height (info_tab_select prev) m = (none, refresh ops (on_info prev_tab m))
  handle terminal_height (logger_select e) m =
      (none, refresh ops (record m { logger_state = transition e m.logger_state }))
  handle terminal_height execute_one_message m =
      execute_selected (selection ops m) (record m { current_exec = some one })
  handle terminal_height execute_all_message m = (
    some execute_all_tests,
    record m {
      test_results = [];
      current_exec = some all;
      test_cases_list = record m.test_cases_list {
        projects = execute_all begun m.test_cases_list.projects;
      };
    },
  )
  handle terminal_height (select_pane click) m =
      (none, refresh ops (record m { click = some click }))

  -- `size` is what `crossterm::terminal::size()` returns
  unfoldable pub update :
      Result Text (ℕ × ℕ)
      → Message M
      → Model T H G L W M
      → Result Text (Option Command) × Model T H G L W M
  unfolding handle
  update (err e) msg m = (err e, record m { click = none })
  update (ok (width, height)) msg m =
      let (cmd, m') = handle height msg (record m { click = none }) in (ok cmd, m')
