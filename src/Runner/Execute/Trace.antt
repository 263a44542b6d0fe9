-- ===== src/Runner/Execute/Trace.antt =====
-- What a test does and reports while the event channel stays open.
use tanu.Prelude.{
  ℕ, zero, suc, ◌+◌, ℤ, Bool, true, List, ◌∷◌, Text, ok, ◌≡◌, ◌∙◌, refl, sym, arith, unwrap_or, ap,
  if◌then◌else◌,
}
use tanu.Config.{ProjectConfig, backoff-max_times}
use tanu.Runner.{TestInfo, Test}
use tanu.Runner.Execute.{
  Attempt, returned, failed, panic, Payload, Action, lock, unlock, called, published, start,
  retry_of, end_of, World, Env, Retry, attempt, failed_test, execute_test, publish, finish,
  after_start, result_of,
}

module _ (env : Env) (info : TestInfo) (serial : Bool) (worker_id : ℤ) where
  -- the index of the call that decides the test, with `n` retries left at call `i`
  unfoldable pub deciding : ℕ → ℕ → ℕ
  deciding zero i = i
  deciding (suc n) i = elim (env.outcome i) [
    | returned ↦ i
    | failed e ↦ deciding n (i + 1)
    | panic p ↦ i
  ]

  abbrev pub guarded : List Action → List Action
  guarded inner = if serial then unlock ∷ inner else inner

  abbrev pub opened : List Action → List Action
  opened t = if serial then lock ∷ t else t

  -- the trace of the calls, the newest action first
  pub history : ℕ → ℕ → List Action → List Action
  history zero i t = guarded (called ∷ opened t)
  history (suc n) i t = elim (env.outcome i) [
    | returned ↦ guarded (called ∷ opened t)
    | failed e ↦ history n (i + 1) (
        guarded
          (published (retry_of (failed_test env info serial worker_id e)) ∷ called ∷ opened t))
    | panic p ↦ guarded (called ∷ opened t)
  ]

module _ (env : Env) (info : TestInfo) (serial : Bool) (worker_id : ℤ)
    (all_open : (n : ℕ) → env.is_open n ≡ true) where
  abbrev f : World → Attempt × World
  f = attempt env info serial worker_id

  -- What the retries leave behind, from a world with `n` retries left.
  abbrev Outcome : ℕ → World → Attempt × World → Type 0
  Outcome n w r =
      (r.0 ≡ env.outcome (deciding env info serial worker_id n w.calls))
      × (r.1.trace ≡ history env info serial worker_id n w.calls w.trace)

  last_attempt : (w : World) → w.retry_count ≡ 0 → Outcome 0 w (f w)
  unfolding attempt deciding history
  last_attempt w h = ground arith

  returned_attempt :
      (n : ℕ) (w : World)
      → env.outcome w.calls ≡ returned
      → Outcome (suc n) w (f w) × ((f w).0 ≡ returned)
  unfolding attempt deciding history
  returned_attempt n w h = ground arith

  panic_attempt :
      (n : ℕ) (w : World) (p : Payload)
      → env.outcome w.calls ≡ panic p
      → Outcome (suc n) w (f w) × ((f w).0 ≡ panic p)
  unfolding attempt deciding history
  panic_attempt n w p h = ground arith

  failed_attempt :
      (n : ℕ) (w : World) (e : Text)
      → w.retry_count ≡ suc n
      → env.outcome w.calls ≡ failed e
      → ((f w).0 ≡ failed e)
        × ((f w).1.calls ≡ w.calls + 1)
        × ((f w).1.retry_count ≡ n)
        × ((f w).1.trace
            ≡ guarded env info serial worker_id (
                published (retry_of (failed_test env info serial worker_id e))
                ∷ called
                ∷ opened env info serial worker_id w.trace))
  unfolding attempt
  failed_attempt n w e c h = ground (arith, all_open w.sends)

  later :
      (n : ℕ) (w : World) (e : Text)
      → w.retry_count ≡ suc n
      → env.outcome w.calls ≡ failed e
      → (r : Attempt × World) → Outcome n (f w).1 r
      → Outcome (suc n) w r
  unfolding deciding history
  later n w e c h r o =
      let (fe, fc, fr, ft) = failed_attempt n w e c h in
      (
        rw (h, deciding) (o.0 ∙ ap (λ i. env.outcome (deciding env info serial worker_id n i)) fc),
        rw (h, history)
            (o.1
              ∙ ap (λ i. history env info serial worker_id n i (f w).1.trace) fc
              ∙ ap (history env info serial worker_id n (w.calls + 1)) ft),
      )

  run-Outcome :
      (retry : Retry) (n : ℕ) (w : World) → w.retry_count ≡ n → Outcome n w (retry.run n f w)
  run-Outcome retry zero w h = rw (retry.run-zero f w) (last_attempt w h)
  run-Outcome retry (suc n) w h = split (env.outcome w.calls) refl (run-Outcome retry n)
    where
      split :
          (r : Attempt)
          → env.outcome w.calls ≡ r
          → ((v : World) → v.retry_count ≡ n → Outcome n v (retry.run n f v))
          → Outcome (suc n) w (retry.run (suc n) f w)
      split returned e rest =
          let (o, d) = returned_attempt n w e in
          rw (retry.run-returned n f w (f w).1 (ap (λ a. (a, (f w).1)) d)) (sym d ∙ o.0, o.1)
      split (panic p) e rest =
          let (o, d) = panic_attempt n w p e in
          rw (retry.run-panic n f w (f w).1 p (ap (λ a. (a, (f w).1)) d)) (sym d ∙ o.0, o.1)
      split (failed x) e rest =
          let (fe, fc, fr, ft) = failed_attempt n w x h e in
          rw (retry.run-failed n f w (f w).1 x (ap (λ a. (a, (f w).1)) fe))
            (later n w x h e (retry.run n f (f w).1) (rest (f w).1 fr))

  finish_open :
      (a : Attempt) (w : World)
      → finish env info serial worker_id (a, w) ≡ (
        ok (record {
          info = info;
          worker_id = worker_id;
          result = result_of env info serial worker_id a;
        }),
        record w {
          sends = w.sends + 1;
          trace =
              published (
                end_of (record {
                  info = info;
                  worker_id = worker_id;
                  result = result_of env info serial worker_id a;
                }))
              ∷ w.trace;
        },
      )
  unfolding finish
  finish_open a w = ground (arith, all_open w.sends)

  start_open :
      (w : World)
      → publish env start w
        ≡ (ok tt, record w { sends = w.sends + 1; trace = published start ∷ w.trace })
  unfolding publish
  start_open w = rw (all_open w.sends)

  opened_test :
      {V : Type 0} (retry : Retry) (project : ProjectConfig V) (w : World)
      → execute_test env info serial worker_id retry project w
        ≡ finish env info serial worker_id (
            retry.run (unwrap_or project.retry.count 0) f (record w {
              sends = w.sends + 1;
              trace = published start ∷ w.trace;
              retry_count = unwrap_or project.retry.count 0;
            }))
  unfolding execute_test
  opened_test retry project w =
      ap (after_start env info serial worker_id retry project) (start_open w)
      ∙ ap
          (λ n. finish env info serial worker_id (
            retry.run n f (record w {
              sends = w.sends + 1;
              trace = published start ∷ w.trace;
              retry_count = unwrap_or project.retry.count 0;
            })))
          (backoff-max_times project.retry)

  -- With the channel open, a test reports its start, then calls its body until a call returns, panics
  -- or has no retry left, reporting a retry between each failed call and the next, and reports its end
  -- with the outcome of the call that decided it, which is also its result.
  pub execute_test-history :
      {V : Type 0} (retry : Retry) (project : ProjectConfig V) (w : World)
      → (test : Test) × ((execute_test env info serial worker_id retry project w).0 ≡ ok test)
        × (test.result
            ≡ result_of env info serial worker_id (
                env.outcome
                  (deciding env info serial worker_id (unwrap_or project.retry.count 0) w.calls)))
        × ((execute_test env info serial worker_id retry project w).1.trace
            ≡ published (end_of test)
              ∷ history env info serial worker_id
                  (unwrap_or project.retry.count 0)
                  w.calls
                  (published start ∷ w.trace))
  execute_test-history retry project w =
      let n = unwrap_or project.retry.count 0 in
      let w'' : World = record w {
        sends = w.sends + 1;
        trace = published start ∷ w.trace;
        retry_count = n;
      } in
      let r = retry.run n f w'' in
      let o = run-Outcome retry n w'' refl in
      let test : Test = record {
        info = info;
        worker_id = worker_id;
        result = result_of env info serial worker_id r.0;
      } in
      let e = opened_test retry project w ∙ finish_open r.0 r.1 in
      (
        test,
        ap (λ p. p.0) e,
        ap (result_of env info serial worker_id) o.0,
        ap (λ p. p.1.trace) e ∙ ap (λ t. published (end_of test) ∷ t) o.1,
      )
