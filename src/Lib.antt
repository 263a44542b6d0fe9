-- ===== src/Lib.antt =====
-- Verification of tanu, a framework that runs web API tests: its core (tanu-core/src), its
-- command line (tanu/src/app.rs) and its terminal interface (tanu-tui/src).
--
-- The parts and how they interact. The command line merges its flags with tanu.toml and sets up a
-- runner. The runner sets the masking of logs, starts the reporters and waits for them at a barrier,
-- selects the tests by its filters for each project, groups the ordered ones, and spawns a task for each
-- group and for each other test. The tasks share a semaphore, a pool of worker identifiers, the mutexes
-- of the serial groups and a flag of cancellation. Each test runs with its retries and publishes its
-- events; a loop awaits the tasks and publishes the summary. A test calls the HTTP client, which follows
-- redirects, keeps cookies, and publishes a masked log of each call; the GraphQL client is built on it.
-- The list reporter buffers the calls of each test and prints them at its end; the terminal interface
-- shows the state of each test in a tree, and sends the runner the commands that its keys ask for.
--
-- - Prelude and below it: texts as lists of character codes, splitting and joining, lists, options,
--   results, maps as association lists.
-- - Masking and below it, of tanu-core/src/masking.rs: `Settings` is the three statics, the setters
--   return it anew. Query, Json, Body, Headers and Url are `mask_url`, `mask_json_value`, `mask_body`
--   and `mask_headers`; Keys is about the keyword tests.
-- - Config and below it, of tanu-core/src/config.rs and error.rs: Load is `load` and `load_from`, Env is
--   `load_env`, with the names of the variables in Env.Loading, Values the getters.
-- - Runner and below it, of tanu-core/src/runner.rs. Workers is `WorkerIds`. Filters are the four filters.
--   Plan is how `run` selects, sorts and groups the tests. Startup is the channel and the barrier, as a
--   step relation on the phases of the reporters and the runner. Execute is `execute_test`, which passes
--   on a world that records calls, locks and events. Group is the bodies of the spawned tasks, Summary
--   the loop that awaits them. Pool is a step relation on the state of all tasks, one step for each
--   access to what they share. Options is `Options`, `Runner` and its setters.
-- - Reporter and below it, of tanu-core/src/reporter.rs: the loop `run` and the handlers of
--   `ListReporter`, on a state that holds the terminal's content, the buffer, the static counter and
--   whether a handler has panicked. Pending is what waits for the end of a test, Printing what is printed
--   then, HttpLog `write_http_log`, whose panic Reporter takes as a test of the logs.
-- - Http and below it, of tanu-core/src/http.rs and graphql.rs: Builder is `RequestBuilder` and the
--   methods of `Client`, Body is `Response::from` and `decompress_body`, Logging the masked log of a
--   call, Redirects is `follow_redirects`, Send is `send`, on a world with the cookies, the requests on the
--   wire and the channel, Graphql is `GraphqlRequestBuilder`. The branches of `send` are functions of their
--   own, from the parsing of the URL inwards; Send.Exits is a rule for what holds at each of its ends.
-- - Grpc and below it, of tanu-core/src/grpc.rs: `LoggingService`, the metadata and the status that it
--   extracts, and in Message `format_message`.
-- - Assertion, of tanu-core/src/assertion.rs: the four macros.
-- - Derive and below it, of tanu-derive/src/lib.rs: the names and serial groups of tests.
-- - Tui and below it, of tanu-tui/src. Tui itself, Marks, Verdicts and Starts are
--   `ExecutionStateController` of widget/list.rs and its data. Listing is `TestListState::new`, Rows is
--   expanding, selecting and the lines that are drawn. Info is `InfoState` of widget/info.rs, and below it
--   the call that is shown, its text, and the lines that are drawn. Model is the model of lib.rs with
--   `update`, Model.Keys is `handle_key`, Model.Clicks how `view` takes a click.
--   Runtime is the loop `Runtime::run`: a list of ticks, each with what `select!` was given.
-- - App, of tanu/src/app.rs: how `App::run` configures the runner, and chooses the reporters.
-- - Examples: the theorems at concrete inputs.
--
-- Bounds. Numbers are unbounded where the code has usize: they count tests, retries and identifiers.
-- Offsets of scrolling and columns of the terminal are taken modulo 65536. No definition runs on fuel. A
-- retry is at most as often as it is configured, and `follow_redirects` recurs on the redirects that are
-- left, ten at first. Durations and floats are not computed with, and stand as the numbers they are
-- written as.
--
-- Not modelled: the colours and most of the formatting of the output, the drawing of the terminal's
-- panes, the parsing and the generated code of the procedural macros, clap's parser, tracing. Code that
-- is not in this repository (serde_json, toml, http, url, hyper, tonic, cookie, the decoders, syn, backon,
-- tokio, ratatui, the file system, Unicode case mapping) enters as parameters with what the code relies
-- on. A poisoned lock is not modelled, nor the capacity of the event channel, nor a run without a limit of
-- concurrency, in which the pool of identifiers is off. Left out too are an error of writing to the
-- terminal, the panic of the terminal interface's loop that polls a finished run again, and that of
-- `load_env` on a name that is cut inside a character.
pub mod Prelude
pub mod Masking
pub mod Http
pub mod Grpc
pub mod Assertion
pub mod Derive
pub mod Config
pub mod Runner
pub mod Reporter
pub mod Tui
pub mod App
pub mod Examples
