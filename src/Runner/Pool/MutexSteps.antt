-- ===== src/Runner/Pool/MutexSteps.antt =====
-- The steps that take and give back the mutex of a serial group keep the invariant.
use tanu.Prelude.{
  ℕ, ◌+◌, ◌<◌, ℤ, is_pos, is_negative, false, List, [], ◌∷◌, some, Text, text_eq, text_eq_iff, ◌≡◌,
  refl, arith, set, get_elem?, any, count, bit, count-set, count-get_elem?, text_eq_refl,
}
use tanu.Runner.Pool.{working, locked, Task, State, without}
use tanu.Runner.Pool.Sound.{has_permit, works_as, anyone, holds, IsSound}

none_counted : (k : Text) (ks : List Text) → any (text_eq k) ks ≡ false → count (text_eq k) ks ≡ 0
none_counted k [] h = refl
none_counted k (j ∷ ks) h = ground (arith, none_counted k ks)

count-without :
    (j k : Text) (ks : List Text)
    → 0 < count (text_eq k) ks
    → count (text_eq j) (without k ks) + bit (text_eq j k) ≡ count (text_eq j) ks
count-without j k [] h = absurd (omega arith)
count-without j k (l ∷ ks) h =
    ground (arith, text_eq_iff k l, text_eq_iff j l, text_eq_iff j k, count-without j k ks)

held_one :
    (c : ℕ) (s : State) (i : ℕ) (t : Task) (id : ℤ) (k : Text)
    → get_elem? s.tasks i ≡ some t
    → t.phase ≡ locked id
    → t.key ≡ some k
    → IsSound c s
    → 0 < count (text_eq k) s.mutexes
held_one c s i t id k at ph key h =
    ground (arith, h.mutexes_held k, count-get_elem? (holds k) s.tasks i t at, text_eq_refl k)

pub step-take_mutex :
    (c : ℕ) (s : State) (i : ℕ) (t : Task) (id : ℤ) (k : Text)
    → get_elem? s.tasks i ≡ some t
    → t.phase ≡ working id
    → t.key ≡ some k
    → any (text_eq k) s.mutexes ≡ false
    → IsSound c s
    → IsSound c (record s {
      mutexes = k ∷ s.mutexes;
      tasks = set s.tasks i (record t { phase = locked id });
    })
step-take_mutex c s i t id k at ph key free h =
    let t' : Task = record t { phase = locked id } in
    record {
      permits_left = ground (arith, count-set has_permit s.tasks i t t' at, h.permits_left);
      enabled = h.enabled;
      workers_left = ground (arith, count-set (works_as anyone) s.tasks i t t' at, h.workers_left);
      workers_once =
          λ n. ground (arith, count-set (works_as (is_pos n)) s.tasks i t t' at, h.workers_once n);
      no_placeholder =
          ground (arith, count-set (works_as is_negative) s.tasks i t t' at, h.no_placeholder);
      pool_clean = h.pool_clean;
      mutexes_held =
          λ j. ground (arith, count-set (holds j) s.tasks i t t' at, h.mutexes_held j, key);
      mutexes_once =
          λ j. ground (arith, h.mutexes_once j, text_eq_iff j k, none_counted k s.mutexes free);
    }

pub step-drop_mutex :
    (c : ℕ) (s : State) (i : ℕ) (t : Task) (id : ℤ) (k : Text)
    → get_elem? s.tasks i ≡ some t
    → t.phase ≡ locked id
    → t.key ≡ some k
    → IsSound c s
    → IsSound c (record s {
      mutexes = without k s.mutexes;
      tasks = set s.tasks i (record t { phase = working id });
    })
step-drop_mutex c s i t id k at ph key h =
    let t' : Task = record t { phase = working id } in
    record {
      permits_left = ground (arith, count-set has_permit s.tasks i t t' at, h.permits_left);
      enabled = h.enabled;
      workers_left = ground (arith, count-set (works_as anyone) s.tasks i t t' at, h.workers_left);
      workers_once =
          λ n. ground (arith, count-set (works_as (is_pos n)) s.tasks i t t' at, h.workers_once n);
      no_placeholder =
          ground (arith, count-set (works_as is_negative) s.tasks i t t' at, h.no_placeholder);
      pool_clean = h.pool_clean;
      mutexes_held = λ j. ground (
        arith,
        count-set (holds j) s.tasks i t t' at,
        h.mutexes_held j,
        key,
        count-without j k s.mutexes (held_one c s i t id k at ph key h),
      );
      mutexes_once = λ j. ground (
        arith,
        h.mutexes_once j,
        count-without j k s.mutexes (held_one c s i t id k at ph key h),
      );
    }
