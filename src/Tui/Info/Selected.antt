-- ===== src/Tui/Info/Selected.antt =====
-- `get_selected_test_result` of tanu-tui/src/widget/info.rs: the call that the info pane shows.
use tanu.Prelude.{
  ℕ, Bool, false, ◌&&◌, List, [], ◌∷◌, Option, none, some, Text, text_eq, or_else, get_elem?,
  map_option, if◌then◌else◌,
}
use tanu.Runner.{CallLog, http, grpc, full_name}
use tanu.Tui.{TestResult, TestCaseSelector}

-- `logs.get(index)`, if there is an index
abbrev indexed : {A : Type 0} → Option ℕ → List A → Option A
indexed none xs = none
indexed (some i) xs = get_elem? xs i

module _ {H G : Type 0} where
  -- whether a result is one of the test that is selected
  unfoldable pub is_of : Text → Text → TestResult H G → Bool
  unfolding full_name text_eq
  is_of project test_name r = elim r.test [
    | none ↦ false
    | some test ↦ text_eq project r.project_name && text_eq (full_name test.info) test_name
  ]

  -- `iter().find(p)`
  find : (TestResult H G → Bool) → List (TestResult H G) → Option (TestResult H G)
  find p [] = none
  find p (r ∷ rs) = if p r then some r else find p rs

  -- gRPC first, and else HTTP
  abbrev pub call_of : TestCaseSelector → TestResult H G → Option (TestResult H G × CallLog H G)
  call_of selector r =
      or_else (map_option (λ log. (r, grpc log)) (indexed selector.grpc_call_index r.grpc_logs))
        (map_option (λ log. (r, http log)) (indexed selector.http_call_index r.logs))

  found_call : TestCaseSelector → Option (TestResult H G) → Option (TestResult H G × CallLog H G)
  found_call selector none = none
  found_call selector (some r) = call_of selector r

  result_called :
      TestCaseSelector → Option Text → List (TestResult H G) → Option (TestResult H G × CallLog H G)
  unfolding found_call find is_of
  result_called selector none results = none
  result_called selector (some test_name) results =
      found_call selector (find (is_of selector.project test_name) results)

  unfoldable pub get_selected_test_result :
      Option TestCaseSelector → List (TestResult H G) → Option (TestResult H G × CallLog H G)
  unfolding result_called
  get_selected_test_result none results = none
  get_selected_test_result (some selector) results = result_called selector selector.test results
