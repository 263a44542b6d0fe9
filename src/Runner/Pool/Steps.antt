-- ===== src/Runner/Pool/Steps.antt =====
-- Each step of a task that leaves the mutexes alone keeps the invariant.
use tanu.Prelude.{
  ℕ, zero, suc, ◌+◌, ◌-◌, ◌≤◌, ◌<◌, ℤ, pos, negsuc, is_pos, is_negative, false, List, [], ◌∷◌, some,
  ◌≡◌, arith, set, get_elem?, count, length, count-set, count-get_elem?,
}
use tanu.Runner.Workers.{
  acquire, release, acquire-count, release-count, length-release, release-negative,
}
use tanu.Runner.Pool.{waiting, permitted, working, released, done, Task, State}
use tanu.Runner.Pool.Sound.{has_permit, works_as, anyone, holds, IsSound}

-- every worker has a permit
works-le-permits : (tasks : List Task) → count (works_as anyone) tasks ≤ count has_permit tasks
works-le-permits [] = omega arith
works-le-permits (t ∷ tasks) = ground (arith, works-le-permits tasks)

pub step-take_permit :
    (c : ℕ) (s : State) (i : ℕ) (t : Task)
    → get_elem? s.tasks i ≡ some t
    → t.phase ≡ waiting
    → 0 < s.permits
    → IsSound c s
    → IsSound c (record s {
      permits = s.permits - 1;
      tasks = set s.tasks i (record t { phase = permitted });
    })
step-take_permit c s i t at ph free h =
    let t' : Task = record t { phase = permitted } in
    record {
      permits_left = ground (arith, count-set has_permit s.tasks i t t' at, h.permits_left);
      enabled = h.enabled;
      workers_left = ground (arith, count-set (works_as anyone) s.tasks i t t' at, h.workers_left);
      workers_once =
          λ k. ground (arith, count-set (works_as (is_pos k)) s.tasks i t t' at, h.workers_once k);
      no_placeholder =
          ground (arith, count-set (works_as is_negative) s.tasks i t t' at, h.no_placeholder);
      pool_clean = h.pool_clean;
      mutexes_held = λ k. ground (arith, count-set (holds k) s.tasks i t t' at, h.mutexes_held k);
      mutexes_once = h.mutexes_once;
    }

-- a permitted task finds a worker
idle_permit :
    (tasks : List Task) (i : ℕ) (t : Task)
    → get_elem? tasks i ≡ some t
    → t.phase ≡ permitted
    → count (works_as anyone) tasks + 1 ≤ count has_permit tasks
idle_permit [] i t at ph = cc
idle_permit (u ∷ tasks) zero t at ph = ground (arith, works-le-permits tasks)
idle_permit (u ∷ tasks) (suc i) t at ph = ground (arith, idle_permit tasks i t at ph)

room :
    (c : ℕ) (s : State) (i : ℕ) (t : Task)
    → get_elem? s.tasks i ≡ some t
    → t.phase ≡ permitted
    → IsSound c s
    → 0 < length s.worker_ids.ids
room c s i t at ph h = ground (arith, idle_permit s.tasks i t at ph, h.permits_left, h.workers_left)

-- what is acquired is no placeholder: the pool holds none
taken :
    (c : ℕ) (s : State)
    → 0 < length s.worker_ids.ids
    → IsSound c s
    → is_negative (acquire s.worker_ids).1 ≡ false
taken c s room h =
    ground (arith, h.pool_clean, acquire-count s.worker_ids is_negative h.enabled room)

released_length :
    (c : ℕ) (s : State) (i : ℕ) (t : Task) (id : ℤ)
    → get_elem? s.tasks i ≡ some t
    → t.phase ≡ working id
    → IsSound c s
    → length (release id s.worker_ids).ids ≡ length s.worker_ids.ids + 1
released_length c s i t (pos n) at ph h = length-release s.worker_ids n h.enabled
released_length c s i t (negsuc n) at ph h =
    absurd (ground (arith, h.no_placeholder, count-get_elem? (works_as is_negative) s.tasks i t at))

pub step-take_worker :
    (c : ℕ) (s : State) (i : ℕ) (t : Task)
    → get_elem? s.tasks i ≡ some t
    → t.phase ≡ permitted
    → IsSound c s
    → IsSound c (record s {
      worker_ids = (acquire s.worker_ids).0;
      tasks = set s.tasks i (record t { phase = working (acquire s.worker_ids).1 });
    })
step-take_worker c s i t at ph h =
    let t' : Task = record t { phase = working (acquire s.worker_ids).1 } in
    record {
      permits_left = ground (arith, count-set has_permit s.tasks i t t' at, h.permits_left);
      enabled = (acquire-count s.worker_ids anyone h.enabled (room c s i t at ph h)).2;
      workers_left = ground (
        arith,
        count-set (works_as anyone) s.tasks i t t' at,
        h.workers_left,
        (acquire-count s.worker_ids anyone h.enabled (room c s i t at ph h)).1,
      );
      workers_once = λ k. ground (
        arith,
        count-set (works_as (is_pos k)) s.tasks i t t' at,
        h.workers_once k,
        (acquire-count s.worker_ids (is_pos k) h.enabled (room c s i t at ph h)).0,
      );
      no_placeholder = ground (
        arith,
        count-set (works_as is_negative) s.tasks i t t' at,
        h.no_placeholder,
        taken c s (room c s i t at ph h) h,
      );
      pool_clean = ground (
        arith,
        h.pool_clean,
        acquire-count s.worker_ids is_negative h.enabled (room c s i t at ph h),
      );
      mutexes_held = λ j. ground (arith, count-set (holds j) s.tasks i t t' at, h.mutexes_held j);
      mutexes_once = h.mutexes_once;
    }

pub step-give_worker :
    (c : ℕ) (s : State) (i : ℕ) (t : Task) (id : ℤ)
    → get_elem? s.tasks i ≡ some t
    → t.phase ≡ working id
    → IsSound c s
    → IsSound c (record s {
      worker_ids = release id s.worker_ids;
      tasks = set s.tasks i (record t { phase = released });
    })
step-give_worker c s i t id at ph h =
    let t' : Task = record t { phase = released } in
    record {
      permits_left = ground (arith, count-set has_permit s.tasks i t t' at, h.permits_left);
      enabled = (release-count s.worker_ids id 0 h.enabled).1;
      workers_left = ground (
        arith,
        count-set (works_as anyone) s.tasks i t t' at,
        h.workers_left,
        released_length c s i t id at ph h,
      );
      workers_once = λ k. ground (
        arith,
        count-set (works_as (is_pos k)) s.tasks i t t' at,
        h.workers_once k,
        (release-count s.worker_ids id k h.enabled).0,
      );
      no_placeholder =
          ground (arith, count-set (works_as is_negative) s.tasks i t t' at, h.no_placeholder);
      pool_clean = release-negative s.worker_ids id h.pool_clean;
      mutexes_held = λ j. ground (arith, count-set (holds j) s.tasks i t t' at, h.mutexes_held j);
      mutexes_once = h.mutexes_once;
    }

pub step-give_permit :
    (c : ℕ) (s : State) (i : ℕ) (t : Task)
    → get_elem? s.tasks i ≡ some t
    → t.phase ≡ released
    → IsSound c s
    → IsSound c
        (record s { permits = s.permits + 1; tasks = set s.tasks i (record t { phase = waiting }) })
step-give_permit c s i t at ph h =
    let t' : Task = record t { phase = waiting } in
    record {
      permits_left = ground (arith, count-set has_permit s.tasks i t t' at, h.permits_left);
      enabled = h.enabled;
      workers_left = ground (arith, count-set (works_as anyone) s.tasks i t t' at, h.workers_left);
      workers_once =
          λ k. ground (arith, count-set (works_as (is_pos k)) s.tasks i t t' at, h.workers_once k);
      no_placeholder =
          ground (arith, count-set (works_as is_negative) s.tasks i t t' at, h.no_placeholder);
      pool_clean = h.pool_clean;
      mutexes_held = λ j. ground (arith, count-set (holds j) s.tasks i t t' at, h.mutexes_held j);
      mutexes_once = h.mutexes_once;
    }

pub step-leave :
    (c : ℕ) (s : State) (i : ℕ) (t : Task)
    → get_elem? s.tasks i ≡ some t
    → t.phase ≡ waiting
    → IsSound c s
    → IsSound c (record s { tasks = set s.tasks i (record t { phase = done }) })
step-leave c s i t at ph h =
    let t' : Task = record t { phase = done } in
    record {
      permits_left = ground (arith, count-set has_permit s.tasks i t t' at, h.permits_left);
      enabled = h.enabled;
      workers_left = ground (arith, count-set (works_as anyone) s.tasks i t t' at, h.workers_left);
      workers_once =
          λ k. ground (arith, count-set (works_as (is_pos k)) s.tasks i t t' at, h.workers_once k);
      no_placeholder =
          ground (arith, count-set (works_as is_negative) s.tasks i t t' at, h.no_placeholder);
      pool_clean = h.pool_clean;
      mutexes_held = λ j. ground (arith, count-set (holds j) s.tasks i t t' at, h.mutexes_held j);
      mutexes_once = h.mutexes_once;
    }
