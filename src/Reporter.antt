-- ===== src/Reporter.antt =====
-- tanu-core/src/reporter.rs: the loop of a reporter over its events, and the list reporter. `H` and
-- `G` are the logs of a HTTP and of a gRPC call. What is written to the terminal is a list of parts,
-- the oldest first, without style and times; the terminal takes every line. The static counter of the
-- test numbers is a field of the state. The order of the buffer is never looked at. `readable` says of
-- a HTTP log that `write_http_log` returns on it, which Reporter/HttpLog.antt decides; else it panics,
-- `panicked` is set, and the loop goes no further.
pub mod Pending
pub mod Printing
pub mod HttpLog
use tanu.Prelude.{
  ℕ, ◌+◌, Bool, true, false, not, any, ◌&&◌, List, [], ◌∷◌, ◌++◌, map, Option, none, some, Text,
  codes, text_eq, Result, ok, err, is_err, if◌then◌else◌,
}
use tanu.Config.{CaptureHttpMode, off, all, on_failure}
use tanu.Runner.{
  TestError, Test, TestSummary, CallLog, http, grpc, EventBody, start, check, call, retry, end,
  summary, Event,
}

-- project, module and test
abbrev pub Key : Type 0
Key = Text × Text × Text

unfoldable pub key_eq : Key → Key → Bool
unfolding text_eq
key_eq (a, b, c) (x, y, z) = text_eq a x && (text_eq b y && text_eq c z)

pub record Buffer (H G : Type 0) : Type 0 where
  pub test_number : Option ℕ
  pub http_logs : List H
  pub grpc_logs : List G

pub data Line (H G : Type 0) : Type 0 where
  -- number, project, module, test
  retry_line : ℕ → Text → Text → Text → TestError → Line H G
  end_line : ℕ → Text → Text → Text → Result TestError (Unit {0}) → Line H G
  http_log : H → Line H G
  broken_log : H → Line H G  -- the part of a log that is written before a panic
  grpc_log : G → Line H G
  summary_lines : TestSummary → Line H G

pub record ListReporter (H G : Type 0) : Type 0 where
  pub terminal : List (Line H G)
  pub buffer : List (Key × Buffer H G)
  pub capture_http : CaptureHttpMode
  pub test_numbers : ℕ  -- `TEST_NUMBER`
  pub panicked : Bool  -- the reporter's task has panicked in a handler

pub data Received (H G : Type 0) : Type 0 where
  received : Event H G → Received H G
  lagged : Received H G

-- `Ok(())` of a handler, or its error
abbrev pub Outcome : Type 0
Outcome = Result Text (Unit {0})

unfoldable pub should_print : CaptureHttpMode → Test → Bool
should_print all test = true
should_print on_failure test = is_err test.result
should_print off test = false

abbrev pub not_found : Text → Text
not_found test_name = codes "test case \"" ++ test_name ++ codes "\" not found in the buffer"

-- `get_or_insert_with(generate_test_number)`, with the counter
unfoldable pub get_or_insert_number : Option ℕ → ℕ → ℕ × ℕ
get_or_insert_number (some n) counter = (n, counter)
get_or_insert_number none counter = (counter + 1, counter + 1)

module _ {H G : Type 0} where
  abbrev pub empty_buffer : Buffer H G
  empty_buffer = record { test_number = none; http_logs = []; grpc_logs = [] }

  unfoldable pub new : CaptureHttpMode → ℕ → ListReporter H G
  new capture_http counter = record {
    terminal = [];
    buffer = [];
    capture_http = capture_http;
    test_numbers = counter;
    panicked = false;
  }

  unfoldable pub get_mut : Key → List (Key × Buffer H G) → Option (Buffer H G)
  unfolding key_eq
  get_mut k [] = none
  get_mut k ((j, b) ∷ m) = if key_eq j k then some b else get_mut k m

  -- also the write through what `get_mut` returns
  unfoldable pub insert : Key → Buffer H G → List (Key × Buffer H G) → List (Key × Buffer H G)
  insert k b m = (k, b) ∷ m

  unfoldable pub swap_remove : Key → List (Key × Buffer H G) → List (Key × Buffer H G)
  unfolding key_eq
  swap_remove k [] = []
  swap_remove k ((j, b) ∷ m) =
      let rest = swap_remove k m in if key_eq j k then rest else (j, b) ∷ rest

  unfoldable pub on_start : Key → ListReporter H G → Outcome × ListReporter H G
  unfolding insert
  on_start k s = (ok tt, record s { buffer = insert k empty_buffer s.buffer })

  unfoldable pub push_log : CallLog H G → Buffer H G → Buffer H G
  push_log (http log) b = record b { http_logs = b.http_logs ++ (log ∷ []) }
  push_log (grpc log) b = record b { grpc_logs = b.grpc_logs ++ (log ∷ []) }

  call_into :
      Key → CallLog H G → Option (Buffer H G) → ListReporter H G → Outcome × ListReporter H G
  unfolding insert push_log
  call_into k log none s = (err (not_found k.2), s)
  call_into k log (some b) s = (ok tt, record s { buffer = insert k (push_log log b) s.buffer })

  unfoldable pub on_call : Key → CallLog H G → ListReporter H G → Outcome × ListReporter H G
  unfolding call_into get_mut
  on_call k log s = elim s.capture_http [
    | off ↦ (ok tt, s)
    | all ↦ call_into k log (get_mut k s.buffer) s
    | on_failure ↦ call_into k log (get_mut k s.buffer) s
  ]

  unfoldable pub on_summary : TestSummary → ListReporter H G → Outcome × ListReporter H G
  on_summary t s = (ok tt, record s { terminal = s.terminal ++ (summary_lines t ∷ []) })

  abbrev pub key_of : Event H G → Key
  key_of e = (e.project, e.module_path, e.test)

  retry_lines : ℕ → Key → Test → List (Line H G)
  retry_lines n (project, module_path, name) test = elim test.result [
    | ok u ↦ []
    | err e ↦ retry_line n project module_path name e ∷ []
  ]

module _ {H G : Type 0} (readable : H → Bool) where
  -- the logs of a buffer, each written by `write_http_log`, which panics at one that is not readable, or
  -- by `write_grpc_log`
  unfoldable pub write_logs : List H → List G → List (Line H G)
  write_logs [] gs = map grpc_log gs
  write_logs (h ∷ hs) gs =
      let rest = write_logs hs gs in if readable h then http_log h ∷ rest else broken_log h ∷ []

  -- the logs of a buffer, if they are to be printed
  unfoldable pub log_lines : Bool → Buffer H G → List (Line H G)
  unfolding write_logs
  log_lines print b = if print then write_logs b.http_logs b.grpc_logs else []

  -- writing them panics
  unfoldable pub breaks : Bool → Buffer H G → Bool
  breaks print b = print && any (λ h. not (readable h)) b.http_logs

  retry_into : Key → Test → Option (Buffer H G) → ListReporter H G → Outcome × ListReporter H G
  unfolding insert retry_lines log_lines breaks get_or_insert_number should_print
  retry_into k test none s = (err (not_found k.2), s)
  retry_into k test (some b) s =
      let (n, counter) = get_or_insert_number b.test_number s.test_numbers in
      (
        ok tt,
        record s {
          terminal =
              s.terminal
              ++ (retry_lines n k test ++ log_lines (should_print s.capture_http test) b);
          buffer =
              insert k (record { test_number = some n; http_logs = []; grpc_logs = [] }) s.buffer;
          test_numbers = counter;
          panicked = breaks (should_print s.capture_http test) b;
        },
      )

  unfoldable pub on_retry : Key → Test → ListReporter H G → Outcome × ListReporter H G
  unfolding retry_into get_mut
  on_retry k test s = retry_into k test (get_mut k s.buffer) s

  end_with : Key → Test → Option (Buffer H G) → ListReporter H G → Outcome × ListReporter H G
  unfolding swap_remove log_lines breaks get_or_insert_number should_print
  end_with k test none s = (err (not_found k.2), s)
  end_with k test (some b) s =
      let (n, counter) = get_or_insert_number b.test_number s.test_numbers in
      (
        ok tt,
        record s {
          terminal =
              s.terminal
              ++ (end_line n k.0 test.info.module_path test.info.name test.result
                  ∷ log_lines (should_print s.capture_http test) b);
          buffer = swap_remove k s.buffer;
          test_numbers = counter;
          panicked = breaks (should_print s.capture_http test) b;
        },
      )

  unfoldable pub on_end : Key → Test → ListReporter H G → Outcome × ListReporter H G
  unfolding end_with get_mut
  on_end k test s = end_with k test (get_mut k s.buffer) s

  -- the `match` of the loop; `on_check` is the one of the trait, which does nothing
  unfoldable pub dispatch : Key → EventBody H G → ListReporter H G → Outcome × ListReporter H G
  unfolding on_start on_call on_retry on_end on_summary
  dispatch k start s = on_start k s
  dispatch k (check c) s = (ok tt, s)
  dispatch k (call log) s = on_call k log s
  dispatch k (retry test) s = on_retry k test s
  dispatch k (end test) s = on_end k test s
  dispatch k (summary t) s = on_summary t s

  -- the loop, until the channel is closed or a handler panics; an error of a handler is logged and no
  -- more
  unfoldable pub recv_loop : List (Received H G) → ListReporter H G → ListReporter H G
  unfolding dispatch
  recv_loop [] s = s
  recv_loop (lagged ∷ rs) s = recv_loop rs s
  recv_loop (received e ∷ rs) s =
      let t = (dispatch (key_of e) e.body s).1 in
      let rest = recv_loop rs t in if t.panicked then t else rest

  -- what `subscribe` returned, and what comes from the channel; a run that panics returns nothing
  unfoldable pub run :
      Result Text (List (Received H G)) → ListReporter H G → Option Outcome × ListReporter H G
  unfolding recv_loop
  run (err e) s = (some (err e), s)
  run (ok rs) s = let t = recv_loop rs s in (if t.panicked then none else some (ok tt), t)
