-- ===== src/Runner/Execute.antt =====
-- `execute_test` of tanu-core/src/runner.rs. What the test body does, and whether the event channel is
-- open, is the environment's choice at each call and at each publication. `backon`'s `retry` enters by
-- its documented behaviour. The world records what happens, the newest first: the serial mutex taken
-- and given back, the calls of the test body, and the events that reach the channel.
pub mod Trace
pub mod Serial
use tanu.Prelude.{
  ℕ, zero, suc, ◌+◌, ◌-◌, ◌<◌, ℤ, Bool, true, false, ◌&&◌, List, [], ◌∷◌, ◌++◌, Option, none, some,
  Text, codes, Result, ok, err, ltb, unwrap_or, if◌then◌else◌, ◌≡◌,
}
use tanu.Config.{ProjectConfig, backoff}
use tanu.Runner.{TestInfo, TestError, panicked, error_returned, Test}

-- what a panic carries: a `&str`, a `String`, or something else
pub data Payload : Type 0 where
  a_str : Text → Payload
  a_string : Text → Payload
  unknown : Payload

-- how a call of the test body ends
pub data Attempt : Type 0 where
  returned : Attempt
  failed : Text → Attempt
  panic : Payload → Attempt

pub data Notice : Type 0 where
  start : Notice
  retry_of : Test → Notice
  end_of : Test → Notice

pub data Action : Type 0 where
  lock unlock called : Action
  published : Notice → Action

pub record World : Type 0 where
  pub calls : ℕ
  pub sends : ℕ
  pub retry_count : ℕ
  pub trace : List Action

pub record Env : Type 0 where
  -- the end of the n-th call of the test body
  pub outcome : ℕ → Attempt
  -- whether the channel is open at the n-th publication
  pub is_open : ℕ → Bool
  -- the `{:?}` of `eyre!(message)`
  pub report : Text → Text

abbrev pub ActionOfWorld : Type 0
ActionOfWorld = World → Attempt × World

-- `Retryable::retry` runs the action again, at most as often as it is told, while the action fails.
pub record Retry : Type 0 where
  pub run : ℕ → ActionOfWorld → World → Attempt × World
  pub run-zero : (f : ActionOfWorld) (w : World) → run 0 f w ≡ f w
  pub run-returned :
      (n : ℕ) (f : ActionOfWorld) (w w' : World)
      → f w ≡ (returned, w')
      → run (suc n) f w ≡ (returned, w')
  pub run-panic :
      (n : ℕ) (f : ActionOfWorld) (w w' : World) (p : Payload)
      → f w ≡ (panic p, w')
      → run (suc n) f w ≡ (panic p, w')
  pub run-failed :
      (n : ℕ) (f : ActionOfWorld) (w w' : World) (e : Text)
      → f w ≡ (failed e, w')
      → run (suc n) f w ≡ run n f w'

abbrev pub log : Action → World → World
log a w = record w { trace = a ∷ w.trace }

module _ (env : Env) where
  unfoldable pub publish : Notice → World → Result Text (Unit {0}) × World
  publish notice w =
      if env.is_open w.sends
      then (ok tt, record w { sends = w.sends + 1; trace = published notice ∷ w.trace })
      else (
        err (env.report (codes "runner channel has been already closed")),
        record w { sends = w.sends + 1 },
      )

  unfoldable pub call_factory : World → Attempt × World
  call_factory w = (env.outcome w.calls, record w { calls = w.calls + 1; trace = called ∷ w.trace })

module _ (env : Env) (info : TestInfo) (serial : Bool) (worker_id : ℤ) where
  -- the guard of the serial mutex is dropped where the closure ends, by a return or by a panic
  unfoldable pub acquire_guard : World → World
  acquire_guard w = if serial then log lock w else w

  unfoldable pub drop_guard : World → World
  drop_guard w = if serial then log unlock w else w

  abbrev pub failed_test : Text → Test
  failed_test e = record { info = info; worker_id = worker_id; result = err (error_returned e) }

  -- what follows a failed call
  after_failure : Text → World → Attempt × World
  unfolding publish drop_guard
  after_failure e w =
      if ltb 0 w.retry_count
      then (let (sent, w') = publish env (retry_of (failed_test e)) w in
          elim sent [
            | ok u ↦ (failed e, drop_guard (record w' { retry_count = w'.retry_count - 1 }))
            | err x ↦ (failed x, drop_guard w')
          ])
      else (failed e, drop_guard w)

  after_call : Attempt × World → Attempt × World
  unfolding after_failure
  after_call (returned, w) = (returned, drop_guard w)
  after_call (panic p, w) = (panic p, drop_guard w)
  after_call (failed e, w) = after_failure e w

  -- the closure `f`
  unfoldable pub attempt : World → Attempt × World
  unfolding after_call call_factory acquire_guard
  attempt w = after_call (call_factory env (acquire_guard w))

  panic_message : Payload → Text
  panic_message (a_str m) = info.name ++ codes " failed with message: " ++ m
  panic_message (a_string m) = info.name ++ codes " failed with message: " ++ m
  panic_message unknown = info.name ++ codes " failed with unknown message"

  unfoldable pub result_of : Attempt → Result TestError (Unit {0})
  unfolding panic_message
  result_of returned = ok tt
  result_of (failed e) = err (error_returned e)
  result_of (panic p) = err (panicked (env.report (panic_message p)))

  finish : Attempt × World → Result Text Test × World
  unfolding result_of publish
  finish (res, w) =
      let test : Test = record { info = info; worker_id = worker_id; result = result_of res } in
      let (sent, w') = publish env (end_of test) w in
      elim sent [ ok u ↦ (ok test, w') | err e ↦ (err e, w') ]

  after_start :
      {V : Type 0}
      → Retry
      → ProjectConfig V
      → Result Text (Unit {0}) × World
      → Result Text Test × World
  unfolding finish attempt backoff
  after_start retry project (err e, w) = (err e, w)
  after_start retry project (ok u, w) = finish (
      retry.run (backoff project.retry).max_times attempt
        (record w { retry_count = unwrap_or project.retry.count 0 }))

  unfoldable pub execute_test :
      {V : Type 0} → Retry → ProjectConfig V → World → Result Text Test × World
  unfolding after_start publish
  execute_test retry project w = after_start retry project (publish env start w)
