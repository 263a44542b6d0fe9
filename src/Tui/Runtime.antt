-- ===== src/Tui/Runtime.antt =====
-- `Runtime` of tanu-tui/src/lib.rs: the loop over what `select!` awaits. A tick is what one turn of the
-- loop was given; which of those that are ready is taken is the environment's choice. What is drawn is
-- left out. The queue to the task of the runner is the list `sent`.
pub mod Queue
pub mod Results
pub mod Collected
pub mod Turns
use tanu.Prelude.{
  ℕ, ◌==◌, Bool, true, false, not, ◌&&◌, ◌||◌, List, [], ◌∷◌, ◌++◌, Option, none, some, Text,
  text_eq, Result, ok, err, ◌>>=◌, if◌then◌else◌,
}
use tanu.Runner.{
  TestInfo, Test, CallLog, http, grpc, EventBody, start, check, call, retry, end, summary, Event,
}
use tanu.Tui.{TestResult, TestState, ModuleState, ProjectState, on_test_updated}
use tanu.Tui.Info.{new_info}
use tanu.Tui.Throbber.{update_throbber}
use tanu.Tui.Model.{
  Model, list_pane, Message, select_pane, Command, ListOps, WidgetEvent, TestListState, update,
}
use tanu.Tui.Model.Clicks.{Layout, view}
use tanu.Tui.Model.Keys.{KeyEvent, KeyCode, char, esc, handle_key}

-- `TestListState`, its state as `list_state`, and `Model::new`; 0 is the row that is selected at first
unfoldable pub new_model :
    {T H G L W M : Type 0} → ListOps L → L → W → List (ProjectState T H G) → Model T H G L W M
new_model ops empty_list new_logger projects = record {
  maximizing = false;
  current_pane = list_pane;
  current_exec = none;
  test_cases_list = record { projects = projects; list_state = ops.select (some 0) empty_list };
  test_results = [];
  info_state = new_info;
  logger_state = new_logger;
  click = none;
}

-- project and test
abbrev pub Key : Type 0
Key = Text × Text

unfoldable pub key_eq : Key → Key → Bool
unfolding text_eq
key_eq (a, b) (x, y) = text_eq a x && text_eq b y

pub record Runtime (T H G L W M : Type 0) : Type 0 where
  pub should_exit : Bool
  pub model : Model T H G L W M
  pub cmds : List Command
  pub sent : List Command
  pub test_results_buffer : List (Key × TestResult H G)

-- The size of the terminal is what it is when the tick is handled.
pub data Tick (H G M : Type 0) : Type 0 where
  draw_tick : Result Text (Layout M) → Tick H G M
  cmds_tick : Tick H G M
  scrl_tick : Tick H G M
  thrb_tick : Tick H G M
  runner_done : Tick H G M
  runner_event : Event H G → Tick H G M
  key_event : Result Text (ℕ × ℕ) → KeyEvent → Tick H G M
  -- whether it is a click of the left button
  mouse_event : Result Text (ℕ × ℕ) → Bool → M → Tick H G M
  other_event : Tick H G M

module _ {H G : Type 0} where
  unfoldable pub get_mut : Key → List (Key × TestResult H G) → Option (TestResult H G)
  unfolding key_eq
  get_mut k [] = none
  get_mut k ((j, r) ∷ m) = if key_eq j k then some r else get_mut k m

  -- also the write through what `get_mut` returns
  unfoldable pub insert :
      Key → TestResult H G → List (Key × TestResult H G) → List (Key × TestResult H G)
  insert k r m = (k, r) ∷ m

  unfoldable pub remove : Key → List (Key × TestResult H G) → List (Key × TestResult H G)
  unfolding key_eq
  remove k [] = []
  remove k ((j, r) ∷ m) = let rest = remove k m in if key_eq j k then rest else (j, r) ∷ rest

  unfoldable pub push_log : CallLog H G → TestResult H G → TestResult H G
  push_log (http log) r = record r { logs = r.logs ++ (log ∷ []) }
  push_log (grpc log) r = record r { grpc_logs = r.grpc_logs ++ (log ∷ []) }

  -- a test that starts
  abbrev pub started_result : Event H G → TestResult H G
  started_result e = record {
    project_name = e.project;
    module_name = e.module_path;
    name = e.test;
    logs = [];
    grpc_logs = [];
    test = none;
  }

module _ {T H G L W M : Type 0} where
  call_into :
      Key → CallLog H G → Option (TestResult H G) → Runtime T H G L W M → Runtime T H G L W M
  unfolding insert push_log
  call_into k log none r = r
  call_into k log (some result) r = record r {
    test_results_buffer = insert k (push_log log result) r.test_results_buffer;
  }

  unfoldable pub finish :
      Event H G → Test → Option (TestResult H G) → Runtime T H G L W M → Runtime T H G L W M
  unfolding on_test_updated remove
  finish e test none r = r
  finish e test (some pending) r =
      let result = record pending { test = some test } in
      record r {
        test_results_buffer = remove (e.project, e.test) r.test_results_buffer;
        model = record r.model {
          test_cases_list = record r.model.test_cases_list {
            projects =
                on_test_updated e.project e.module_path e.test result
                  r.model.test_cases_list.projects;
          };
          test_results = r.model.test_results ++ (result ∷ []);
        };
      }

  -- the `match` on an event of the runner
  unfoldable pub on_event : Event H G → EventBody H G → Runtime T H G L W M → Runtime T H G L W M
  unfolding insert call_into finish get_mut
  on_event e start r = record r {
    test_results_buffer = insert (e.project, e.test) (started_result e) r.test_results_buffer;
  }
  on_event e (check c) r = r
  on_event e (call log) r =
      call_into (e.project, e.test) log (get_mut (e.project, e.test) r.test_results_buffer) r
  on_event e (retry test) r = r
  on_event e (end test) r = finish e test (get_mut (e.project, e.test) r.test_results_buffer) r
  on_event e (summary s) r = r

  -- `cmds.pop_front()` and `runner_tx.send(cmd)`
  unfoldable pub send_command : List Command → Runtime T H G L W M → Runtime T H G L W M
  send_command [] r = r
  send_command (cmd ∷ cmds) r = record r { cmds = cmds; sent = r.sent ++ (cmd ∷ []) }

-- `KeyCode::Char('q') | KeyCode::Esc`; 113 is q
abbrev pub quits : KeyCode → Bool
quits (char c) = c == 113
quits esc = true
quits _ = false

-- `cmds.push_back(cmd)`, if there is a command
abbrev pub push_back : Result Text (Option Command) → List Command → List Command
push_back (ok (some cmd)) cmds = cmds ++ (cmd ∷ [])
push_back (ok none) cmds = cmds
push_back (err e) cmds = cmds

module _ {T H G L W M : Type 0} (ops : ListOps L) (transition : WidgetEvent → W → W) (begun : T)
    (calc_next : T → T) where
  on_message : Result Text (ℕ × ℕ) → Option (Message M) → Runtime T H G L W M → Runtime T H G L W M
  unfolding update
  on_message size none r = r
  on_message size (some msg) r =
      let (result, m) = update ops transition begun size msg r.model in
      record r { model = m; cmds = push_back result r.cmds }

  -- one turn of the loop
  unfoldable pub turn : Tick H G M → Runtime T H G L W M → Result Text (Runtime T H G L W M)
  unfolding on_message on_event send_command view update_throbber handle_key
  turn (draw_tick (err e)) r = err e
  turn (draw_tick (ok layout)) r = ok (record r { model = view layout r.model })
  turn cmds_tick r = ok (send_command r.cmds r)
  turn scrl_tick r = ok r
  turn thrb_tick r = ok (record r {
    model = record r.model {
      test_cases_list = record r.model.test_cases_list {
        projects = update_throbber calc_next r.model.test_cases_list.projects;
      };
    };
  })
  -- the source polls the finished task again at the next turn, which panics; this is left out
  turn runner_done r = ok r
  turn (runner_event e) r = ok (on_event e e.body r)
  turn (key_event size key) r =
      if quits key.code
      then ok (record r { should_exit = true })
      else ok (on_message size (handle_key key r.model.current_pane) r)
  turn (mouse_event size is_left click) r =
      ok (on_message size (if is_left then some (select_pane click) else none) r)
  turn other_event r = ok r

  -- `while !self.should_exit && !panic_occurred()`; whether a panic has occurred is read at each turn
  unfoldable pub run :
      List (Bool × Tick H G M) → Runtime T H G L W M → Result Text (Runtime T H G L W M)
  run [] r = ok r
  run ((panic_occurred, tick) ∷ ticks) r = elim (not r.should_exit && not panic_occurred) [
    | false ↦ ok r
    | true ↦ turn tick r >>= λ r'. run ticks r'
  ]
