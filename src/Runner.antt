-- ===== src/Runner.antt =====
-- tanu-core/src/runner.rs: the data that the runner hands round. `H` and `G` are the logs of a HTTP
-- and of a gRPC call. Instants and durations are left out: nothing that is modelled branches on them.
-- An `eyre::Report` is the text that `{:?}` prints for it.
pub mod Workers
pub mod Filters
pub mod Startup
pub mod Execute
pub mod Pool
pub mod Plan
pub mod Group
pub mod Summary
pub mod Options
use tanu.Prelude.{ℕ, ℤ, Bool, true, false, List, ◌++◌, Option, none, some, Text, codes, Result}

pub data TestError : Type 0 where
  panicked : Text → TestError
  error_returned : Text → TestError

pub record Check : Type 0 where
  pub result : Bool
  pub expr : Text

abbrev pub success : Text → Check
success expr = record { result = true; expr = expr }

abbrev pub error : Text → Check
error expr = record { result = false; expr = expr }

pub record TestInfo : Type 0 where
  pub module_path : Text  -- the field `module`
  pub name : Text
  pub serial_group : Option Text
  pub line : ℕ
  pub ordered : Bool

abbrev pub colons : Text
colons = codes "::"

unfoldable pub full_name : TestInfo → Text
full_name info = info.module_path ++ colons ++ info.name

unfoldable pub unique_name : Text → TestInfo → Text
unique_name project info = project ++ colons ++ info.module_path ++ colons ++ info.name

pub record Test : Type 0 where
  pub info : TestInfo
  pub worker_id : ℤ
  pub result : Result TestError (Unit {0})

pub record TestSummary : Type 0 where
  pub total_tests : ℕ
  pub passed_tests : ℕ
  pub failed_tests : ℕ
  pub skipped_tests : ℕ

pub data CallLog (H G : Type 0) : Type 0 where
  http : H → CallLog H G
  grpc : G → CallLog H G

pub data EventBody (H G : Type 0) : Type 0 where
  start : EventBody H G
  check : Check → EventBody H G
  call : CallLog H G → EventBody H G
  retry : Test → EventBody H G
  end : Test → EventBody H G
  summary : TestSummary → EventBody H G

pub record Event (H G : Type 0) : Type 0 where
  pub project : Text
  pub module_path : Text
  pub test : Text
  pub body : EventBody H G

-- `From<EventBody> for Event`, in the scope of a project and a test
unfoldable pub event_of : {H G : Type 0} → Text → TestInfo → EventBody H G → Event H G
event_of project info body = record {
  project = project;
  module_path = info.module_path;
  test = info.name;
  body = body;
}
