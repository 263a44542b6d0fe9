-- ===== src/Runner/Pool/Sound.antt =====
-- The invariant of the permits, the worker identifiers and the mutexes.
use tanu.Prelude.{
  ℕ, ◌+◌, ◌≤◌, ℤ, is_pos, is_negative, Bool, true, false, Option, none, some, Text, text_eq, ◌≡◌,
  if◌then◌else◌, count, bit, length, ltb,
}
use tanu.Runner.Pool.{Phase, waiting, permitted, working, locked, released, done, Task, State}

abbrev pub phase_has_permit : Phase → Bool
phase_has_permit waiting = false
phase_has_permit done = false
phase_has_permit permitted = true
phase_has_permit (working id) = true
phase_has_permit (locked id) = true
phase_has_permit released = true

abbrev pub has_permit : Task → Bool
has_permit t = phase_has_permit t.phase

abbrev pub phase_works_as : (ℤ → Bool) → Phase → Bool
phase_works_as p (working id) = p id
phase_works_as p (locked id) = p id
phase_works_as p waiting = false
phase_works_as p permitted = false
phase_works_as p released = false
phase_works_as p done = false

-- the task has a worker whose identifier passes the test
abbrev pub works_as : (ℤ → Bool) → Task → Bool
works_as p t = phase_works_as p t.phase

abbrev pub anyone : ℤ → Bool
anyone id = true

abbrev pub phase_locked : Phase → Bool
phase_locked (locked id) = true
phase_locked waiting = false
phase_locked permitted = false
phase_locked (working id) = false
phase_locked released = false
phase_locked done = false

abbrev pub key_is : Text → Option Text → Bool
key_is k none = false
key_is k (some j) = text_eq k j

-- the task holds the mutex of the key
abbrev pub holds : Text → Task → Bool
holds k t = if phase_locked t.phase then key_is k t.key else false

pub record IsSound (c : ℕ) (s : State) : Type 0 where
  pub permits_left : s.permits + count has_permit s.tasks ≡ c
  pub enabled : s.worker_ids.enabled ≡ true
  pub workers_left : length s.worker_ids.ids + count (works_as anyone) s.tasks ≡ c
  pub workers_once :
      (k : ℕ)
      → count (is_pos k) s.worker_ids.ids + count (works_as (is_pos k)) s.tasks ≡ bit (ltb k c)
  pub no_placeholder : count (works_as is_negative) s.tasks ≡ 0
  pub pool_clean : count is_negative s.worker_ids.ids ≡ 0
  pub mutexes_held : (k : Text) → count (text_eq k) s.mutexes ≡ count (holds k) s.tasks
  pub mutexes_once : (k : Text) → count (text_eq k) s.mutexes ≤ 1
