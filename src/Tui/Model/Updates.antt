-- ===== src/Tui/Model/Updates.antt =====
-- What `update` of tanu-tui/src/lib.rs promises: which messages give a command, and that the info pane
-- follows the selected row.
use tanu.Prelude.{
  ℕ, Bool, true, false, Option, none, some, ok, map_option, ◌≡◌, refl, ap, ◌∙◌, get_elem?,
}
use tanu.Tui.{TestCaseSelector}
use tanu.Tui.Rows.{select_test_case}
use tanu.Tui.Rows.Selected.{rows, select_test_case-rows}
use tanu.Tui.Info.{next, prev}
use tanu.Tui.Model.{
  Model, one, Message, Command, ListOps, WidgetEvent, maximize, next_pane_message, list_select,
  list_expand, info_select, info_tab_select, logger_select, execute_one_message,
  execute_all_message, select_pane, execute_one, execute_all_tests, selection, update, handle,
  execute_selected, refresh,
}

module _ {M : Type 0} where
  -- the command that a message gives
  abbrev pub command_of : Message M → Option TestCaseSelector → Option Command
  command_of execute_one_message selected = map_option execute_one selected
  command_of execute_all_message selected = some execute_all_tests
  command_of maximize selected = none
  command_of next_pane_message selected = none
  command_of (list_select movement) selected = none
  command_of list_expand selected = none
  command_of (info_select movement) selected = none
  command_of (info_tab_select movement) selected = none
  command_of (logger_select e) selected = none
  command_of (select_pane click) selected = none

  -- the messages that execute
  abbrev pub executes : Message M → Bool
  executes execute_one_message = true
  executes execute_all_message = true
  executes maximize = false
  executes next_pane_message = false
  executes (list_select movement) = false
  executes list_expand = false
  executes (info_select movement) = false
  executes (info_tab_select movement) = false
  executes (logger_select e) = false
  executes (select_pane click) = false

module _ {T H G L W M : Type 0} (ops : ListOps L) (transition : WidgetEvent → W → W) (begun : T)
    (size : ℕ × ℕ) where
  execute_selected-command :
      (o : Option TestCaseSelector) (m : Model T H G L W M)
      → (execute_selected ops transition begun o m).0 ≡ map_option execute_one o
  unfolding execute_selected
  execute_selected-command none m = refl
  execute_selected-command (some sel) m = refl

  -- A message to execute the selected item gives a command with what is selected, if anything is; one
  -- to execute all gives that command; no other message gives any.
  pub update-command_of :
      (msg : Message M) (m : Model T H G L W M)
      → (update ops transition begun (ok size) msg m).0 ≡ ok (command_of msg (selection ops m))
  unfolding update handle selection
  update-command_of maximize m = refl
  update-command_of next_pane_message m = refl
  update-command_of (list_select movement) m = refl
  update-command_of list_expand m = refl
  update-command_of (info_select movement) m = refl
  update-command_of (info_tab_select next) m = refl
  update-command_of (info_tab_select prev) m = refl
  update-command_of (logger_select e) m = refl
  update-command_of execute_one_message m = ap ok (
      execute_selected-command (selection ops m)
        (record m { click = none; current_exec = some one }))
  update-command_of execute_all_message m = refl
  update-command_of (select_pane click) m = refl

  unfoldable pub updated : Message M → Model T H G L W M → Model T H G L W M
  updated msg m = (update ops transition begun (ok size) msg m).1

  update-selection :
      (msg : Message M) (m : Model T H G L W M)
      → executes msg ≡ false
      → (updated msg m).info_state.selected_test ≡ selection ops (updated msg m)
  unfolding updated update handle refresh selection
  update-selection maximize m h = refl
  update-selection next_pane_message m h = refl
  update-selection (list_select movement) m h = refl
  update-selection list_expand m h = refl
  update-selection (info_select movement) m h = refl
  update-selection (info_tab_select next) m h = refl
  update-selection (info_tab_select prev) m h = refl
  update-selection (logger_select e) m h = refl
  update-selection execute_one_message m h = cc
  update-selection execute_all_message m h = cc
  update-selection (select_pane click) m h = refl

  -- After a message that executes nothing, the info pane shows the row under the cursor: that which
  -- stands there in the flat list of the rows of the updated model, or none past their end.
  pub update-row :
      (msg : Message M) (m : Model T H G L W M) (i : ℕ)
      → executes msg ≡ false
      → ops.selected (updated msg m).test_cases_list.list_state ≡ some i
      → (updated msg m).info_state.selected_test
        ≡ get_elem? (rows (updated msg m).test_results (updated msg m).test_cases_list.projects) i
  unfolding selection select_test_case
  update-row msg m i h c =
      update-selection msg m h
      ∙ ap
          (λ o.
            select_test_case (updated msg m).test_results o
              (updated msg m).test_cases_list.projects)
          c
      ∙ select_test_case-rows (updated msg m).test_results i
          (updated msg m).test_cases_list.projects
