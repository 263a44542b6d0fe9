-- ===== src/Runner/Summary.antt =====
-- The loop of `Runner::run` of tanu-core/src/runner.rs over the tasks as they finish, and the summary.
-- `joined` is the order in which the tasks finish, which the scheduler chooses; there are as many as
-- tasks were spawned. Durations are left out.
use tanu.Prelude.{
  ℕ, ◌+◌, ◌-◌, ◌≤◌, Bool, true, false, not, ◌||◌, ◌&&◌, List, [], ◌∷◌, Text, codes, Result, ok, err,
  is_err, count, length, any, ltb, if◌then◌else◌, ◌≡◌, refl, arith, Bool-cases, inl, inr,
}
use tanu.Runner.{TestSummary}

-- what `handles.next().await` yields: the result of a task, or why there is none
pub data Joined : Type 0 where
  finished : Result Text (Unit {0}) → Joined
  task_panicked : Joined
  task_cancelled : Joined

pub record Progress : Type 0 where
  pub processed_tests : ℕ
  pub failed_tests : ℕ
  pub has_any_error : Bool
  pub cancelled : Bool

abbrev pub initial : Progress
initial = record { processed_tests = 0; failed_tests = 0; has_any_error = false; cancelled = false }

-- what counts as a failure: an error of a task, and a panic
unfoldable pub is_task_failure : Joined → Bool
is_task_failure (finished res) = is_err res
is_task_failure task_panicked = true
is_task_failure task_cancelled = false

unfoldable pub join_loop : Bool → Progress → List Joined → Progress
unfolding is_task_failure
join_loop fail_fast s [] = s
join_loop fail_fast s (j ∷ js) =
    let s' = record s { processed_tests = s.processed_tests + 1 } in
    let failed = record s' { has_any_error = true; failed_tests = s'.failed_tests + 1 } in
    let stopped = record failed { cancelled = true } in
    let rest = join_loop fail_fast (if is_task_failure j then failed else s') js in
    if is_task_failure j && fail_fast then stopped else rest

unfoldable pub summarize : ℕ → Progress → TestSummary
summarize total_tests s =
    let skipped_tests = total_tests - s.processed_tests in
    record {
      total_tests = total_tests;
      passed_tests = total_tests - s.failed_tests - skipped_tests;
      failed_tests = s.failed_tests;
      skipped_tests = skipped_tests;
    }

-- what the loop publishes and returns; that the terminal takes `no test cases found` is taken for granted
unfoldable pub run_tasks : Bool → List Joined → TestSummary × Result Text (Unit {0})
unfolding join_loop summarize
run_tasks fail_fast joined =
    let s = join_loop fail_fast initial joined in
    (
      summarize (length joined) s,
      if s.has_any_error then err (codes "one or more tests failed") else ok tt,
    )

-- the tasks that the loop gets to: all, or with fail-fast those up to the first failure
abbrev pub awaited : Bool → List Joined → List Joined
awaited fail_fast [] = []
awaited fail_fast (j ∷ js) =
    let rest = awaited fail_fast js in if is_task_failure j && fail_fast then j ∷ [] else j ∷ rest

module _ (fail_fast : Bool) where
  record Counted (s s' : Progress) (js : List Joined) : Type 0 where
    pub all_processed : s'.processed_tests ≡ s.processed_tests + length (awaited fail_fast js)
    pub all_failed : s'.failed_tests ≡ s.failed_tests + count is_task_failure (awaited fail_fast js)
    pub error_kept :
        s'.has_any_error ≡ (s.has_any_error || any is_task_failure (awaited fail_fast js))

  join_loop-Counted : (s : Progress) (js : List Joined) → Counted s (join_loop fail_fast s js) js
  unfolding join_loop
  join_loop-Counted s [] = ground arith
  join_loop-Counted s (j ∷ js) = elim (Bool-cases (is_task_failure j)) [
    | inl bad ↦ elim (Bool-cases fail_fast) [
      | inl stop ↦ rw (bad, stop) (unfold is_task_failure in ground arith)
      | inr go ↦
          rw (bad, go)
            (ground (
              arith,
              join_loop-Counted
                  (record s {
                    processed_tests = s.processed_tests + 1;
                    failed_tests = s.failed_tests + 1;
                    has_any_error = true;
                  })
                  js,
              go,
            ))
    ]
    | inr good ↦ rw good (
        ground (
          arith,
          join_loop-Counted (record s { processed_tests = s.processed_tests + 1 }) js,
          good,
        ))
  ]

awaited-le : (fail_fast : Bool) (js : List Joined) → length (awaited fail_fast js) ≤ length js
awaited-le fail_fast [] = omega arith
awaited-le fail_fast (j ∷ js) = ground (arith, awaited-le fail_fast js)

count_not :
    (p : Joined → Bool) (js : List Joined) → count p js + count (λ j. not (p j)) js ≡ length js
count_not p [] = refl
count_not p (j ∷ js) = ground (arith, count_not p js)

any-count : (p : Joined → Bool) (js : List Joined) → any p js ≡ ltb 0 (count p js)
any-count p [] = refl
any-count p (j ∷ js) = ground (arith, any-count p js)

-- what a summary and a result say of the tasks that were awaited
pub record Reports (fail_fast : Bool) (joined : List Joined)
    (r : TestSummary × Result Text (Unit {0})) : Type 0 where
  pub total : r.0.total_tests ≡ length joined
  pub failed : r.0.failed_tests ≡ count is_task_failure (awaited fail_fast joined)
  pub passed : r.0.passed_tests ≡ count (λ j. not (is_task_failure j)) (awaited fail_fast joined)
  pub skipped : r.0.skipped_tests + length (awaited fail_fast joined) ≡ length joined
  pub adds_up : r.0.passed_tests + r.0.failed_tests + r.0.skipped_tests ≡ r.0.total_tests
  pub failing : is_err r.1 ≡ ltb 0 r.0.failed_tests

-- The summary counts each task once: as failed or passed if it was awaited, as skipped if not, and the
-- subtractions never go below zero. The run fails exactly when a task is counted as failed. With
-- fail-fast the tasks up to the first failure are awaited, else all.
pub run_tasks-Reports :
    (fail_fast : Bool) (joined : List Joined)
    → Reports fail_fast joined (run_tasks fail_fast joined)
unfolding run_tasks
run_tasks-Reports fail_fast joined =
    let c = join_loop-Counted fail_fast initial joined in
    unfold summarize in
    ground (
      arith,
      c,
      awaited-le fail_fast joined,
      count_not is_task_failure (awaited fail_fast joined),
      any-count is_task_failure (awaited fail_fast joined),
    )
