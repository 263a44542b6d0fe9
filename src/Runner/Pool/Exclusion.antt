-- ===== src/Runner/Pool/Exclusion.antt =====
-- What the invariant of the tasks means for the tests that run.
use tanu.Prelude.{
  ℕ, ◌<◌, ℤ, pos, negsuc, is_pos, is_negative, true, List, Option, some, Text, text_eq_refl, ◌≡◌,
  ◌≢◌, ◌⊎◌, inl, inr, Bool, ◌∙◌, ap, subst, refl, arith, get_elem?, count-get_elem?,
  count-get_elem?_two,
}
use tanu.Runner.Pool.{working, locked, Task, State, start, Reach}
use tanu.Runner.Pool.Sound.{phase_works_as, works_as, holds}
use tanu.Runner.Pool.Invariant.{Reach-IsSound}

-- The task has the worker of this identifier: before the mutex of its group and after, or in its body
-- under the mutex.
abbrev pub HasWorker : ℤ → Task → Type 0
HasWorker id t = (t.phase ≡ working id) ⊎ (t.phase ≡ locked id)

works : (p : ℤ → Bool) {id : ℤ} (t : Task) → HasWorker id t → p id ≡ true → works_as p t ≡ true
works p t (inl e) h = ap (phase_works_as p) e ∙ h
works p t (inr e) h = ap (phase_works_as p) e ∙ h

is_pos_refl : (k : ℕ) → is_pos k (pos k) ≡ true
is_pos_refl k = ground arith

module _ (c : ℕ) (keys : List (Option Text)) {s : State} (r : Reach (start c keys) s) where
  worker_known :
      (i : ℕ) (t : Task) (id : ℤ)
      → get_elem? s.tasks i ≡ some t
      → HasWorker id t
      → (k : ℕ) × (id ≡ pos k) × (k < c)
  worker_known i t (pos k) at h = (
    k,
    refl,
    ground (
      arith,
      (Reach-IsSound c keys r).workers_once k,
      works (is_pos k) t h (is_pos_refl k),
      count-get_elem? (works_as (is_pos k)) s.tasks i t at,
    ),
  )
  worker_known i t (negsuc k) at h = absurd (
      ground (
        arith,
        (Reach-IsSound c keys r).no_placeholder,
        works is_negative t h refl,
        count-get_elem? (works_as is_negative) s.tasks i t at,
      ))

  -- No two tests run on one worker at a time.
  workers_distinct :
      (i j : ℕ) (t u : Task) (k : ℕ)
      → i < j
      → get_elem? s.tasks i ≡ some t
      → get_elem? s.tasks j ≡ some u
      → works_as (is_pos k) t ≡ true
      → works_as (is_pos k) u ≡ true
      → ⊥
  workers_distinct i j t u k lt ti uj wt wu = ground (
    arith,
    (Reach-IsSound c keys r).workers_once k,
    count-get_elem?_two (works_as (is_pos k)) s.tasks i j t u lt ti uj wt wu,
  )

  -- A test that has a worker, in its body under the mutex of its group or not, has one of the
  -- identifiers 0, …, c - 1. Two tests that have the same worker at a time are one test.
  pub worker_exclusive :
      (i j : ℕ) (t u : Task) (id : ℤ)
      → get_elem? s.tasks i ≡ some t
      → get_elem? s.tasks j ≡ some u
      → HasWorker id t
      → HasWorker id u
      → (i ≡ j) × ((k : ℕ) × (id ≡ pos k) × (k < c))
  worker_exclusive i j t u id ti uj h g =
      let (k, e, below) = worker_known i t id ti h in
      let wt = works (is_pos k) t (subst (λ x. HasWorker x t) e h) (is_pos_refl k) in
      let wu = works (is_pos k) u (subst (λ x. HasWorker x u) e g) (is_pos_refl k) in
      (
        ground (
          arith,
          λ (lt : i < j). workers_distinct i j t u k lt ti uj wt wu,
          λ (lt : j < i). workers_distinct j i u t k lt uj ti wu wt,
        ),
        (k, e, below),
      )

  -- No two tests of one serial group run their bodies at a time.
  pub serial_exclusive :
      (i j : ℕ) (t u : Task) (x y : ℤ) (k : Text)
      → i < j
      → get_elem? s.tasks i ≡ some t
      → get_elem? s.tasks j ≡ some u
      → t.key ≡ some k
      → u.key ≡ some k
      → t.phase ≡ locked x
      → u.phase ≢ locked y
  serial_exclusive i j t u x y k lt ti uj tk uk tp up = ground (
    arith,
    (Reach-IsSound c keys r).mutexes_held k,
    (Reach-IsSound c keys r).mutexes_once k,
    text_eq_refl k,
    count-get_elem?_two (holds k) s.tasks i j t u lt ti uj,
  )
