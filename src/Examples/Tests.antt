-- ===== src/Examples/Tests.antt =====
-- One test, and the plan of the tests: tanu-core/src/runner.rs at concrete inputs.
use tanu.Prelude.{
  ℕ, zero, suc, ◌≤◌, pos, Bool, true, false, ◌&&◌, List, [], ◌∷◌, some, Text, codes, ok, ◌≡◌, ◌↔◌,
  refl, count, lookup, text_eq, Elem,
}
use tanu.Config.{ProjectConfig, default_retry, default_project}
use tanu.Runner.{TestInfo, Test}
use tanu.Runner.Execute.{
  Attempt, returned, failed, panic, published, start, end_of, World, Env, Retry, result_of,
  execute_test,
}
use tanu.Runner.Execute.Trace.{deciding, history, execute_test-history}
use tanu.Runner.Execute.Serial.{held, execute_test-serial}
use tanu.Runner.Plan.{Selected, select, ordered_groups, group_key}
use tanu.Runner.Plan.Order.{key_le}
use tanu.Runner.Plan.Selection.{IsSelected, select-IsSelected}
use tanu.Runner.Plan.Grouping.{IsSorted, ordered_groups-lookup}

-- a retry that is a recursion on the number of retries
abbrev again : Attempt × World → Attempt × World → Attempt × World
again (returned, w) rest = (returned, w)
again (panic p, w) rest = (panic p, w)
again (failed e, w) rest = rest

abbrev do_retry : ℕ → (World → Attempt × World) → World → Attempt × World
do_retry zero f w = f w
do_retry (suc n) f w = let rest = do_retry n f (f w).1 in again (f w) rest

abbrev retry : Retry
retry = record {
  run = do_retry;
  run-zero = λ f w. refl;
  run-returned = λ n f w w' e. rw e refl;
  run-panic = λ n f w w' p e. rw e refl;
  run-failed = λ n f w w' x e. rw e refl;
}

-- a body that fails twice and then returns, and a channel that is open
abbrev env : Env
env = record {
  outcome = λ n. elim n [
    | zero ↦ failed (codes "404")
    | suc m ↦ (elim m [ zero ↦ failed (codes "503") | suc k ↦ returned ])
  ];
  is_open = λ n. true;
  report = λ t. t;
}

abbrev login : TestInfo
login = record {
  module_path = codes "user";
  name = codes "login";
  serial_group = some (codes "db");
  line = 10;
  ordered = true;
}

abbrev logout : TestInfo
logout = record login { name = codes "logout"; line = 5 }

abbrev project : ProjectConfig Text
project = record (default_project (codes "dev")) { retry = record default_retry { count = some 3 } }

abbrev world : World
world = record { calls = 0; sends = 0; retry_count = 0; trace = [] }

execute_test-history_example :
    (test : Test) × ((execute_test env login true (pos 0) retry project world).0 ≡ ok test)
    × (test.result
        ≡ result_of env login true (pos 0) (env.outcome (deciding env login true (pos 0) 3 0)))
    × ((execute_test env login true (pos 0) retry project world).1.trace
        ≡ published (end_of test) ∷ history env login true (pos 0) 3 0 (published start ∷ []))
execute_test-history_example =
    execute_test-history env login true (pos 0) (λ n. refl) retry project world

-- the third call decides
deciding_third : deciding env login true (pos 0) 3 0 ≡ 2
unfolding deciding
deciding_third = refl

execute_test-serial_example :
    (held (execute_test env login true (pos 0) retry project world).1.trace ≡ some false)
    × ((execute_test env login true (pos 0) retry project world).1.calls ≤ 4)
execute_test-serial_example = execute_test-serial env login (pos 0) retry project world refl

abbrev tests : List (TestInfo × ℕ)
tests = (login, 0) ∷ (logout, 1) ∷ []

abbrev wanted : Selected Text ℕ
wanted = record { project = project; info = login; factory = 0 }

select-IsSelected_example :
    Elem wanted (select [] [] (codes "user::login" ∷ []) [] tests (project ∷ [])) ↔ (
      Elem (login, 0) tests
      × Elem project (project ∷ [])
      × IsSelected [] [] (codes "user::login" ∷ []) [] wanted)
select-IsSelected_example =
    select-IsSelected [] [] (codes "user::login" ∷ []) [] tests (project ∷ []) wanted

abbrev other : Selected Text ℕ
other = record { project = project; info = logout; factory = 1 }

ordered_groups-lookup_example :
    IsSorted (other ∷ wanted ∷ [])
    × ((p : Selected Text ℕ → Bool)
        → count p (other ∷ wanted ∷ [])
          ≡ count
              (λ t. t.info.ordered && (text_eq (group_key t) (codes "dev::db") && p t))
              (wanted ∷ other ∷ []))
unfolding ordered_groups lookup key_le text_eq group_key
ordered_groups-lookup_example =
    ordered_groups-lookup (wanted ∷ other ∷ []) (codes "dev::db") (other ∷ wanted ∷ []) refl
