-- ===== src/Examples/Interface.antt =====
-- The reporter and the terminal interface: tanu-core/src/reporter.rs and tanu-tui/src/widget/list.rs at
-- concrete inputs.
use tanu.Prelude.{
  Bool, ltb, ℕ, ◌++◌, pos, true, false, List, [], ◌∷◌, none, some, codes, ok, err, map_option, ◌≡◌,
  refl,
}
use tanu.Config.{all}
use tanu.Runner.{TestInfo, Test, error_returned, http, start, call, end, Event}
use tanu.Reporter.{Line, Received, received, lagged, new, run, key_of}
use tanu.Reporter.Pending.{pending, newest_first}
use tanu.Reporter.Printing.{Printed, run-Printed}
use tanu.Tui.{
  TestResult, initialized, executing, executed, TestState, ModuleState, ProjectState,
  TestCaseSelector, on_test_updated, execute_specified,
}
use tanu.Tui.Marks.{test_at, apply_to, ended, on_test_updated-ended}
use tanu.Tui.Starts.{marked, execute_specified-marked}

abbrev pub info : TestInfo
info = record {
  module_path = codes "user";
  name = codes "login";
  serial_group = none;
  line = 3;
  ordered = false;
}

abbrev pub failing : Test
failing = record { info = info; worker_id = pos 0; result = err (error_returned (codes "404")) }

abbrev pub started : Event ℕ ℕ
started = record {
  project = codes "dev";
  module_path = codes "user";
  test = codes "login";
  body = start;
}

abbrev pub ended_event : Event ℕ ℕ
ended_event = record started { body = end failing }

abbrev events : List (Received ℕ ℕ)
events =
    received started
    ∷ received (record started { body = call (http 7) })
    ∷ lagged
    ∷ received (record started { test = codes "logout" })
    ∷ []

-- a log that is too large is not readable
abbrev readable : ℕ → Bool
readable n = ltb n 100

run-Printed_example :
    (lines : List (Line ℕ ℕ)) × ((run readable
        (ok (events ++ (received ended_event ∷ [])))
        (new all 0)).1.terminal
      ≡ (run readable (ok events) (new all 0)).1.terminal ++ lines)
    × Printed readable all
        (key_of ended_event)
        failing
        (pending all (key_of ended_event) (newest_first events []))
        lines
        (run readable (ok (events ++ (received ended_event ∷ []))) (new all 0)).1.panicked
unfolding run new
run-Printed_example = run-Printed readable all 0 events ended_event failing refl refl

abbrev pub result : TestResult ℕ ℕ
result = record {
  project_name = codes "dev";
  module_name = codes "user";
  name = codes "login";
  logs = 7 ∷ [];
  grpc_logs = [];
  test = some failing;
}

abbrev pub test_state : TestState ℕ ℕ ℕ
test_state = record { info = info; expanded = false; execution_state = initialized }

-- the first test has failed, and the second still runs
abbrev pub user : ModuleState ℕ ℕ ℕ
user = record {
  project_name = codes "dev";
  name = codes "user";
  expanded = true;
  tests =
      record test_state { execution_state = executed result }
      ∷ record test_state { execution_state = executing 0 }
      ∷ [];
  execution_state = executing 0;
}

abbrev pub dev : ProjectState ℕ ℕ ℕ
dev = record {
  name = codes "dev";
  expanded = true;
  modules = user ∷ [];
  execution_state = executing 0;
}

on_test_updated-ended_example :
    test_at 0 0 1 (on_test_updated (codes "dev") (codes "user") (codes "login") result (dev ∷ []))
    ≡ map_option
        (apply_to (ended (codes "dev") (codes "user") (codes "login") result))
        (test_at 0 0 1 (dev ∷ []))
on_test_updated-ended_example =
    on_test_updated-ended (codes "dev") (codes "user") (codes "login") result 0 0 1 (dev ∷ [])

abbrev selector : TestCaseSelector
selector = record {
  project = codes "dev";
  module_name = some (codes "user");
  test = none;
  http_call_index = none;
  grpc_call_index = none;
}

execute_specified-marked_example :
    test_at 0 0 0 (execute_specified 0 selector (dev ∷ []))
    ≡ map_option (apply_to (marked 0 selector)) (test_at 0 0 0 (dev ∷ []))
execute_specified-marked_example = execute_specified-marked 0 selector 0 0 0 (dev ∷ [])
