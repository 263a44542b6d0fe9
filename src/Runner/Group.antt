-- ===== src/Runner/Group.antt =====
-- The tasks that `Runner::run` of tanu-core/src/runner.rs spawns: one for each group of ordered tests,
-- and one for each other test. Tasks share the flag of cancellation, the semaphore and the pool of
-- worker identifiers, so what each of these answers before the i-th test is the environment's choice.
-- `execute` is `execute_test` with the mutex of the test's group.
use tanu.Prelude.{
  ℕ, ◌+◌, ℤ, Bool, true, false, ◌||◌, List, [], ◌∷◌, ◌++◌, Option, none, some, Text, codes, Result,
  ok, err, is_err, or_else, if◌then◌else◌, ◌≡◌, ◌∙◌, arith, any, ◌>>=◌, Bool-cases, inl, inr,
}
use tanu.Runner.{Test}

pub record GroupState : Type 0 where
  pub group_failed : Bool
  pub group_error : Option Text

pub record Shared : Type 0 where
  -- `cancelled.load`
  pub cancelled : ℕ → Bool
  -- `semaphore.acquire`, with the text of its error
  pub permit : ℕ → Result Text (Unit {0})
  -- `worker_ids.acquire`
  pub worker_id : ℕ → ℤ

-- `test.result.is_err()`, or an error of the runner itself
abbrev pub is_failure : Result Text Test → Bool
is_failure (ok test) = is_err test.result
is_failure (err e) = true

-- the tests that a group gets to: those before the first one at which the run is cancelled, without
-- those that get no permit
abbrev pub reached : {T : Type 0} → Shared → ℕ → List T → List T
reached shared i [] = []
reached shared i (t ∷ ts) =
    let rest = reached shared (i + 1) ts in
    if shared.cancelled i then [] else if is_err (shared.permit i) then rest else t ∷ rest

-- the `match` on the result of a test of a group
record_result : Result Text Test → GroupState → GroupState
record_result (ok test) s = if is_err test.result then record s { group_failed = true } else s
record_result (err e) s = record s {
  group_failed = true;
  group_error = or_else s.group_error (some e);
}

group_result : GroupState → Result Text (Unit {0})
group_result s =
    if s.group_failed
    then elim s.group_error [ some e ↦ err e | none ↦ err (codes "one or more tests failed") ]
    else ok tt

-- the closure of `and_then` of a single test
ensure_ok : Test → Result Text (Unit {0})
ensure_ok test = if is_err test.result then err (codes "Condition failed: `!is_err`") else ok tt

module _ {T : Type 0} (shared : Shared) (execute : T → ℤ → Result Text Test) where
  run_one : ℕ → T → GroupState → GroupState
  unfolding record_result
  run_one i t s = record_result (execute t (shared.worker_id i)) s

  unfoldable pub group_tests : ℕ → List T → GroupState → GroupState
  unfolding run_one
  group_tests i [] s = s
  group_tests i (t ∷ ts) s =
      let rest = group_tests (i + 1) ts (if is_err (shared.permit i) then s else run_one i t s) in
      if shared.cancelled i then s else rest

  -- the task of a group
  unfoldable pub run_group : List T → Result Text (Unit {0})
  unfolding group_tests group_result
  run_group ts =
      group_result (group_tests 0 ts (record { group_failed = false; group_error = none }))

  -- the task of a test that is not ordered
  unfoldable pub run_single : T → Result Text (Unit {0})
  unfolding ensure_ok
  run_single t = if shared.cancelled 0 then ok tt else elim (shared.permit 0) [
    | err e ↦ err (codes "failed to acquire semaphore: " ++ e)
    | ok u ↦ execute t (shared.worker_id 0) >>= ensure_ok
  ]

module _ {T : Type 0} (shared : Shared) (execute : T → ℤ → Result Text Test) (failing : T → Bool)
    (agree : (t : T) (id : ℤ) → is_failure (execute t id) ≡ failing t) where
  run_one-failed :
      (i : ℕ) (t : T) (s : GroupState)
      → (run_one shared execute i t s).group_failed ≡ (s.group_failed || failing t)
  unfolding run_one
  run_one-failed i t s = ground (arith, agree t (shared.worker_id i))

  regroup : {c : Bool} (a b d : Bool) → c ≡ (a || b) → (c || d) ≡ (a || (b || d))
  regroup a b d e = ground arith

  group_tests-failed :
      (i : ℕ) (ts : List T) (s : GroupState)
      → (group_tests shared execute i ts s).group_failed
        ≡ (s.group_failed || any failing (reached shared i ts))
  unfolding group_tests
  group_tests-failed i [] s = ground arith
  group_tests-failed i (t ∷ ts) s = elim (Bool-cases (shared.cancelled i)) [
    | inl stop ↦ rw stop (ground arith)
    | inr go ↦ elim (Bool-cases (is_err (shared.permit i))) [
      | inl closed ↦ rw (go, closed) (group_tests-failed (i + 1) ts s)
      | inr given ↦
          rw (go, given)
            (group_tests-failed (i + 1) ts (run_one shared execute i t s)
              ∙ regroup s.group_failed (failing t) (any failing (reached shared (i + 1) ts))
                  (run_one-failed i t s))
    ]
  ]

  -- The task of a group fails exactly when a test fails that the group gets to, provided that whether
  -- a test fails does not depend on the worker it runs on.
  pub run_group-is_err :
      (ts : List T) → is_err (run_group shared execute ts) ≡ any failing (reached shared 0 ts)
  unfolding run_group
  run_group-is_err ts =
      ground (arith, group_tests-failed 0 ts (record { group_failed = false; group_error = none }))
