-- ===== src/Runner/Pool.antt =====
-- The tasks of `Runner::run` of tanu-core/src/runner.rs side by side: the semaphore, the pool of worker
-- identifiers and the mutexes of the serial groups. A step is one task's next access to one of these;
-- between steps any task may go on. A task's key is the key of its group's mutex, if it has one. A
-- group's task goes from the end of one test to waiting for the next.
pub mod Sound
pub mod Steps
pub mod MutexSteps
pub mod Invariant
pub mod Exclusion
use tanu.Prelude.{
  ℕ, suc, ◌+◌, ◌-◌, ◌≤◌, ◌<◌, ℤ, pos, negsuc, is_pos, is_negative, Bool, true, false, List, [], ◌∷◌,
  map, Option, none, some, Text, text_eq, ◌≡◌, set, get_elem?, if◌then◌else◌, any,
}
use tanu.Runner.Workers.{WorkerIds, new, acquire, release}

pub data Phase : Type 0 where
  waiting : Phase
  permitted : Phase
  working : ℤ → Phase
  locked : ℤ → Phase
  released : Phase
  done : Phase

pub record Task : Type 0 where
  pub key : Option Text
  pub phase : Phase

pub record State : Type 0 where
  pub permits : ℕ
  pub worker_ids : WorkerIds
  pub mutexes : List Text  -- the keys of the mutexes that are held
  pub tasks : List Task

-- one task goes to another phase
abbrev pub move : ℕ → Task → Phase → List Task → List Task
move i t phase tasks = set tasks i (record t { phase = phase })

abbrev pub without : Text → List Text → List Text
without k [] = []
without k (j ∷ js) = let rest = without k js in if text_eq k j then js else j ∷ rest

-- the run at its start, with `concurrency` permits
abbrev pub start : ℕ → List (Option Text) → State
start concurrency keys = record {
  permits = concurrency;
  worker_ids = new (some concurrency);
  mutexes = [];
  tasks = map (λ k. record { key = k; phase = waiting }) keys;
}

pub data Step : State → State → Type 0 where
  -- `semaphore.acquire().await`
  take_permit :
      (s : State) (i : ℕ) (t : Task)
      → get_elem? s.tasks i ≡ some t
      → t.phase ≡ waiting
      → 0 < s.permits
      → Step s (record s { permits = s.permits - 1; tasks = move i t permitted s.tasks })
  -- `worker_ids.acquire()`
  take_worker :
      (s : State) (i : ℕ) (t : Task)
      → get_elem? s.tasks i ≡ some t
      → t.phase ≡ permitted
      → Step s (record s {
        worker_ids = (acquire s.worker_ids).0;
        tasks = move i t (working (acquire s.worker_ids).1) s.tasks;
      })
  -- `mutex.lock().await`, before a call of the test body
  take_mutex :
      (s : State) (i : ℕ) (t : Task) (id : ℤ) (k : Text)
      → get_elem? s.tasks i ≡ some t
      → t.phase ≡ working id
      → t.key ≡ some k
      → any (text_eq k) s.mutexes ≡ false
      → Step s (record s { mutexes = k ∷ s.mutexes; tasks = move i t (locked id) s.tasks })
  -- the guard is dropped
  drop_mutex :
      (s : State) (i : ℕ) (t : Task) (id : ℤ) (k : Text)
      → get_elem? s.tasks i ≡ some t
      → t.phase ≡ locked id
      → t.key ≡ some k
      → Step s (record s { mutexes = without k s.mutexes; tasks = move i t (working id) s.tasks })
  -- `worker_ids.release(worker_id)`
  give_worker :
      (s : State) (i : ℕ) (t : Task) (id : ℤ)
      → get_elem? s.tasks i ≡ some t
      → t.phase ≡ working id
      → Step s
          (record s { worker_ids = release id s.worker_ids; tasks = move i t released s.tasks })
  -- the permit is dropped, and a group goes on to its next test
  give_permit :
      (s : State) (i : ℕ) (t : Task)
      → get_elem? s.tasks i ≡ some t
      → t.phase ≡ released
      → Step s (record s { permits = s.permits + 1; tasks = move i t waiting s.tasks })
  -- a task that has no test left, or that sees the cancellation
  leave :
      (s : State) (i : ℕ) (t : Task)
      → get_elem? s.tasks i ≡ some t
      → t.phase ≡ waiting
      → Step s (record s { tasks = move i t done s.tasks })

pub data Reach (s : State) : State → Type 0 where
  here : Reach s s
  next : {t u : State} → Reach s t → Step t u → Reach s u
