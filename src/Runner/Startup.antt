-- ===== src/Runner/Startup.antt =====
-- The event channel and the barrier at the start of a run: `publish`, `subscribe`,
-- `setup_reporter_barrier` and `wait_reporter_barrier` of tanu-core/src/runner.rs, and the first lines
-- of `run` of tanu-core/src/reporter.rs. `tokio::sync::Barrier` lets all go when as many wait as it was
-- made for; the lock of the channel is never poisoned. A step is one task's next access.
use tanu.Prelude.{
  ℕ, zero, suc, ◌+◌, ◌≤◌, ◌<◌, Bool, true, false, List, [], ◌∷◌, ◌++◌, Option, none, some, Text,
  codes, Result, ok, err, ◌≡◌, refl, arith, set, get_elem?, count, bit, length, count-set,
  if◌then◌else◌,
}

-- The runner's channel, `none` once it is taken; a sender that is there has its receiver beside it, so
-- that sending cannot fail. `E` is the type of events.
module _ {E : Type 0} where
  unfoldable pub publish : E → Option (List E) → Result Text (Unit {0}) × Option (List E)
  publish e none = (err (codes "runner channel has been already closed"), none)
  publish e (some sent) = (ok tt, some (sent ++ (e ∷ [])))

  -- a subscriber gets what is sent from now on: the number of events before it
  unfoldable pub subscribe : Option (List E) → Result Text ℕ
  subscribe none = err (codes "runner channel has been already closed")
  subscribe (some sent) = ok (length sent)

  -- `guard.take()`, if `terminate_channel` is set
  unfoldable pub close_channel : Bool → Option (List E) → Option (List E)
  close_channel terminate_channel channel = if terminate_channel then none else channel

pub data ReporterPhase : Type 0 where
  spawned : ReporterPhase
  -- `subscribe()` was called, and returned a receiver or an error
  subscribed : ReporterPhase
  at_barrier : ReporterPhase

pub data RunnerPhase : Type 0 where
  setting_up : RunnerPhase
  waiting : RunnerPhase
  testing : RunnerPhase

pub record Startup : Type 0 where
  pub parties : ℕ  -- what the barrier was made for
  pub arrived : ℕ
  pub reporters : List ReporterPhase
  pub runner : RunnerPhase

abbrev pub replicate : {A : Type 0} → ℕ → A → List A
replicate zero a = []
replicate (suc n) a = a ∷ replicate n a

-- `setup_reporter_barrier(reporters.len())`, and a task spawned for each reporter
unfoldable pub setup_reporter_barrier : ℕ → Startup
setup_reporter_barrier n = record {
  parties = n + 1;
  arrived = 0;
  reporters = replicate n spawned;
  runner = setting_up;
}

pub data Step : Startup → Startup → Type 0 where
  reporter_subscribes :
      (s : Startup) (i : ℕ)
      → get_elem? s.reporters i ≡ some spawned
      → Step s (record s { reporters = set s.reporters i subscribed })
  reporter_waits :
      (s : Startup) (i : ℕ)
      → get_elem? s.reporters i ≡ some subscribed
      → Step s (record s { reporters = set s.reporters i at_barrier; arrived = s.arrived + 1 })
  runner_waits :
      (s : Startup)
      → s.runner ≡ setting_up
      → Step s (record s { runner = waiting; arrived = s.arrived + 1 })
  runner_goes :
      (s : Startup)
      → s.runner ≡ waiting
      → s.arrived ≡ s.parties
      → Step s (record s { runner = testing })

pub data Reach (s : Startup) : Startup → Type 0 where
  here : Reach s s
  next : {t u : Startup} → Reach s t → Step t u → Reach s u

abbrev is_waiting : ReporterPhase → Bool
is_waiting spawned = false
is_waiting subscribed = false
is_waiting at_barrier = true

abbrev has_arrived : RunnerPhase → Bool
has_arrived setting_up = false
has_arrived waiting = true
has_arrived testing = true

record IsOrderly (n : ℕ) (s : Startup) : Type 0 where
  pub made_for : s.parties ≡ n + 1
  pub as_many : length s.reporters ≡ n
  pub counted : s.arrived ≡ count is_waiting s.reporters + bit (has_arrived s.runner)
  pub all_there : s.runner ≡ testing → count is_waiting s.reporters ≡ n

length-set : {A : Type 0} (xs : List A) (i : ℕ) (v : A) → length (set xs i v) ≡ length xs
length-set [] i v = refl
length-set (x ∷ xs) zero v = refl
length-set (x ∷ xs) (suc i) v = omega (arith, length-set xs i v)

count-le-length : (xs : List ReporterPhase) → count is_waiting xs ≤ length xs
count-le-length [] = omega arith
count-le-length (x ∷ xs) = ground (arith, count-le-length xs)

count-lt-length :
    (xs : List ReporterPhase) (i : ℕ) (x : ReporterPhase)
    → get_elem? xs i ≡ some x
    → is_waiting x ≡ false
    → count is_waiting xs < length xs
count-lt-length [] i x at h = cc
count-lt-length (y ∷ xs) zero x at h = ground (arith, count-le-length xs)
count-lt-length (y ∷ xs) (suc i) x at h = ground (arith, count-lt-length xs i x at h)

Step-IsOrderly : (n : ℕ) {s u : Startup} → Step s u → IsOrderly n s → IsOrderly n u
Step-IsOrderly n (reporter_subscribes s i at) h = ground (
  arith,
  length-set s.reporters i subscribed,
  count-set is_waiting s.reporters i spawned subscribed at,
)
Step-IsOrderly n (reporter_waits s i at) h = ground (
  arith,
  length-set s.reporters i at_barrier,
  count-lt-length s.reporters i subscribed at refl,
  count-set is_waiting s.reporters i subscribed at_barrier at,
)
Step-IsOrderly n (runner_waits s w) h = ground arith
Step-IsOrderly n (runner_goes s w all) h = ground arith

length-replicate : {A : Type 0} (n : ℕ) (a : A) → length (replicate n a) ≡ n
length-replicate zero a = refl
length-replicate (suc n) a = omega (arith, length-replicate n a)

count-spawned : (n : ℕ) → count is_waiting (replicate n spawned) ≡ 0
count-spawned zero = refl
count-spawned (suc n) = count-spawned n

setup-IsOrderly : (n : ℕ) → IsOrderly n (setup_reporter_barrier n)
unfolding setup_reporter_barrier
setup-IsOrderly n = ground (arith, length-replicate n spawned, count-spawned n)

Reach-IsOrderly : (n : ℕ) {s : Startup} → Reach (setup_reporter_barrier n) s → IsOrderly n s
Reach-IsOrderly n here = setup-IsOrderly n
Reach-IsOrderly n (next r st) = Step-IsOrderly n st (Reach-IsOrderly n r)

-- When the runner goes on to its tests, every reporter has called `subscribe`: no reporter, the i-th,
-- is still at a point before it waits at the barrier.
pub testing-subscribed :
    (n : ℕ) {s : Startup} (i : ℕ) (x : ReporterPhase)
    → Reach (setup_reporter_barrier n) s
    → s.runner ≡ testing
    → get_elem? s.reporters i ≡ some x
    → x ≡ at_barrier
testing-subscribed n {s} i at_barrier r t at = refl
testing-subscribed n {s} i spawned r t at =
    absurd (ground (arith, Reach-IsOrderly n r, count-lt-length s.reporters i spawned at refl))
testing-subscribed n {s} i subscribed r t at =
    absurd (ground (arith, Reach-IsOrderly n r, count-lt-length s.reporters i subscribed at refl))
