-- ===== src/Runner/Pool/Invariant.antt =====
-- The invariant holds at the start of a run and in all that it reaches.
use tanu.Prelude.{
  ℕ, is_pos, is_negative, Bool, false, List, [], ◌∷◌, map, Option, Text, ◌≡◌, refl, arith, count,
}
use tanu.Runner.Workers.{new, new-count, length-new, new-negative}
use tanu.Runner.Pool.{
  waiting, Task, State, start, Step, take_permit, take_worker, take_mutex, drop_mutex, give_worker,
  give_permit, leave, Reach, here, next,
}
use tanu.Runner.Pool.Sound.{has_permit, works_as, anyone, holds, IsSound}
use tanu.Runner.Pool.MutexSteps.{step-take_mutex, step-drop_mutex}
use tanu.Runner.Pool.Steps.{
  step-take_permit, step-take_worker, step-give_worker, step-give_permit, step-leave,
}

-- Every step of every task keeps the invariant.
pub Step-IsSound : (c : ℕ) {s u : State} → Step s u → IsSound c s → IsSound c u
Step-IsSound c (take_permit s i t at ph free) h = step-take_permit c s i t at ph free h
Step-IsSound c (take_worker s i t at ph) h = step-take_worker c s i t at ph h
Step-IsSound c (take_mutex s i t id k at ph key free) h =
    step-take_mutex c s i t id k at ph key free h
Step-IsSound c (drop_mutex s i t id k at ph key) h = step-drop_mutex c s i t id k at ph key h
Step-IsSound c (give_worker s i t id at ph) h = step-give_worker c s i t id at ph h
Step-IsSound c (give_permit s i t at ph) h = step-give_permit c s i t at ph h
Step-IsSound c (leave s i t at ph) h = step-leave c s i t at ph h

all_waiting :
    (p : Task → Bool) (keys : List (Option Text))
    → ((k : Option Text) → p (record { key = k; phase = waiting }) ≡ false)
    → count p (map (λ k. record { key = k; phase = waiting }) keys) ≡ 0
all_waiting p [] h = refl
all_waiting p (k ∷ keys) h = ground (arith, h k, all_waiting p keys h)

pub start-IsSound : (c : ℕ) (keys : List (Option Text)) → IsSound c (start c keys)
start-IsSound c keys = record {
  permits_left = ground (arith, all_waiting has_permit keys (λ k. refl));
  enabled = unfold new in refl;
  workers_left = omega (arith, all_waiting (works_as anyone) keys (λ k. refl), length-new c);
  workers_once =
      λ k. omega (arith, all_waiting (works_as (is_pos k)) keys (λ o. refl), new-count k c);
  no_placeholder = all_waiting (works_as is_negative) keys (λ k. refl);
  pool_clean = new-negative c;
  mutexes_held = λ k. omega (arith, all_waiting (holds k) keys (λ o. refl));
  mutexes_once = λ k. omega arith;
}

-- In any interleaving of the tasks the invariant holds: a permit for each task that has one and no
-- more than there are, each worker identifier either in the pool or with one task, and each mutex
-- held by the one task that it is recorded for.
pub Reach-IsSound :
    (c : ℕ) (keys : List (Option Text)) {s : State} → Reach (start c keys) s → IsSound c s
Reach-IsSound c keys here = start-IsSound c keys
Reach-IsSound c keys (next r st) = Step-IsSound c st (Reach-IsSound c keys r)
