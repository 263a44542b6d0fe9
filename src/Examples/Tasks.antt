-- ===== src/Examples/Tasks.antt =====
-- The tasks of a run: tanu-core/src/runner.rs at concrete inputs.
use tanu.Prelude.{
  inl, ℕ, ◌<◌, ℤ, pos, Bool, true, false, List, [], ◌∷◌, Option, none, some, Text, codes, Result,
  ok, err, is_err, ◌≡◌, ◌≢◌, refl, arith,
}
use tanu.Runner.{Test, TestInfo}
use tanu.Runner.Workers.{new, acquire}
use tanu.Runner.Pool.{
  waiting, working, locked, permitted, Task, State, start, take_permit, take_worker, take_mutex,
  Reach, here, next,
}
use tanu.Runner.Pool.Sound.{IsSound}
use tanu.Runner.Pool.Invariant.{Reach-IsSound}
use tanu.Runner.Pool.Exclusion.{worker_exclusive, serial_exclusive}
use tanu.Runner.Startup.{
  ReporterPhase, at_barrier, testing, Startup, setup_reporter_barrier, reporter_subscribes,
  reporter_waits, runner_waits, runner_goes, testing-subscribed,
}
use tanu.Runner.Startup
use tanu.Runner.Group.{Shared, run_group, run_group-is_err}
use tanu.Runner.Summary.{finished, task_panicked, Reports, run_tasks, run_tasks-Reports}

abbrev db : Text
db = codes "db"

abbrev keys : List (Option Text)
keys = some db ∷ some db ∷ none ∷ []

abbrev task : Task
task = record { key = some db; phase = waiting }

abbrev free : Task
free = record { key = none; phase = waiting }

-- two tests of one group run, and one waits for a permit
abbrev busy : State
busy = record {
  permits = 0;
  worker_ids = record { enabled = true; ids = [] };
  mutexes = [];
  tasks =
      record task { phase = working (pos 1) } ∷ record task { phase = working (pos 0) } ∷ free ∷ [];
}

busy_reached : Reach (start 2 keys) busy
unfolding new acquire
busy_reached =
    next
      (next
        (next (next here (take_permit _ 0 task refl refl (omega arith)))
          (take_worker _ 0 (record task { phase = permitted }) refl refl))
        (take_permit _ 1 task refl refl (omega arith)))
      (take_worker _ 1 (record task { phase = permitted }) refl refl)

abbrev calling : State
calling = record busy {
  mutexes = db ∷ [];
  tasks =
      record task { phase = locked (pos 1) } ∷ record task { phase = working (pos 0) } ∷ free ∷ [];
}

calling_reached : Reach (start 2 keys) calling
calling_reached =
    next busy_reached
      (take_mutex busy 0 (record task { phase = working (pos 1) }) (pos 1) db refl refl refl refl)

Reach-IsSound_example : IsSound 2 calling
Reach-IsSound_example = Reach-IsSound 2 keys calling_reached

worker_exclusive_example : (Path ℕ 1 1) × ((k : ℕ) × (pos 0 ≡ pos k) × (k < 2))
worker_exclusive_example =
    worker_exclusive 2 keys busy_reached 1 1 (record task { phase = working (pos 0) })
      (record task { phase = working (pos 0) }) (pos 0) refl refl (inl refl) (inl refl)

serial_exclusive_example : working (pos 0) ≢ locked (pos 0)
serial_exclusive_example =
    serial_exclusive 2 keys calling_reached 0 1 (record task { phase = locked (pos 1) })
      (record task { phase = working (pos 0) }) (pos 1) (pos 0) db (omega arith) refl refl refl refl
      refl

-- one reporter, which subscribes and waits before the runner goes on
abbrev begun : Startup
begun = record { parties = 2; arrived = 2; reporters = at_barrier ∷ []; runner = testing }

begun_reached : Startup.Reach (setup_reporter_barrier 1) begun
unfolding setup_reporter_barrier
begun_reached =
    Startup.next
      (Startup.next
        (Startup.next (Startup.next Startup.here (reporter_subscribes _ 0 refl))
          (reporter_waits _ 0 refl))
        (runner_waits _ refl))
      (runner_goes _ refl refl)

testing-subscribed_example : at_barrier ≡ at_barrier
testing-subscribed_example = testing-subscribed 1 0 at_barrier begun_reached refl refl

-- an environment that never cancels and always gives a permit
abbrev shared : Shared
shared = record { cancelled = λ i. false; permit = λ i. ok tt; worker_id = λ i. pos i }

abbrev info : TestInfo
info = record {
  module_path = codes "m";
  name = codes "t";
  serial_group = some db;
  line = 1;
  ordered = true;
}

-- tests that are the Booleans: whether they fail
abbrev execute : Bool → ℤ → Result Text Test
execute true id = err (codes "no event channel")
execute false id = ok (record { info = info; worker_id = id; result = ok tt })

run_group-is_err_example : is_err (run_group shared execute (false ∷ true ∷ false ∷ [])) ≡ true
run_group-is_err_example =
    run_group-is_err shared execute (λ t. t) (λ t id. ground arith) (false ∷ true ∷ false ∷ [])

run_tasks-Reports_example :
    Reports true
      (finished (ok tt) ∷ task_panicked ∷ finished (ok tt) ∷ [])
      (run_tasks true (finished (ok tt) ∷ task_panicked ∷ finished (ok tt) ∷ []))
run_tasks-Reports_example =
    run_tasks-Reports true (finished (ok tt) ∷ task_panicked ∷ finished (ok tt) ∷ [])
