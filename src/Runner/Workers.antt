-- ===== src/Runner/Workers.antt =====
-- `WorkerIds` of tanu-core/src/runner.rs. A mutex that is poisoned is not modelled: the pool is only
-- locked for a push or a pop, which do not panic.
use tanu.Prelude.{
  ℕ, zero, suc, ◌+◌, ◌<◌, ℤ, pos, negsuc, is_negative, is_pos, Bool, true, false, ◌||◌, not, List,
  [], ◌∷◌, ◌++◌, Option, none, some, ◌≡◌, refl, arith, pop, pop-none, pop-some, count, count-append,
  count-pop, bit, length, length-append, if◌then◌else◌, ltb, Option-cases, inl, inr,
}

pub record WorkerIds : Type 0 where
  pub enabled : Bool
  pub ids : List ℤ

-- `0..c`, as signed numbers
abbrev pub range : ℕ → List ℤ
range zero = []
range (suc c) = range c ++ (pos c ∷ [])

unfoldable pub new : Option ℕ → WorkerIds
new (some c) = record { enabled = true; ids = range c }
new none = record { enabled = false; ids = [] }

unfoldable pub acquire : WorkerIds → WorkerIds × ℤ
acquire w =
    if not w.enabled
    then (w, negsuc 0)
    else elim (pop w.ids) [ none ↦ (w, negsuc 0) | some (id, rest) ↦ (record w { ids = rest }, id) ]

unfoldable pub release : ℤ → WorkerIds → WorkerIds
release id w = if not w.enabled || is_negative id then w else record w { ids = w.ids ++ (id ∷ []) }

count-range : (k c : ℕ) → count (is_pos k) (range c) ≡ bit (ltb k c)
count-range k zero = ground arith
count-range k (suc c) =
    ground (arith, count-range k c, count-append (is_pos k) (range c) (pos c ∷ []))

-- A pool of `c` identifiers has each of 0, …, c - 1 once.
pub new-count : (k c : ℕ) → count (is_pos k) (new (some c)).ids ≡ bit (ltb k c)
unfolding new
new-count k c = count-range k c

length-range : (c : ℕ) → length (range c) ≡ c
length-range zero = refl
length-range (suc c) = omega (arith, length-range c, length-append (range c) (pos c ∷ []))

pub length-new : (c : ℕ) → length (new (some c)).ids ≡ c
unfolding new
length-new c = length-range c

-- A pool without a concurrency, and one that is empty, give -1 and stay as they are.
pub acquire-none : (w : WorkerIds) → w.ids ≡ [] → acquire w ≡ (w, negsuc 0)
unfolding acquire
acquire-none w h = ground arith

-- What is acquired from an enabled pool that is not empty was in it, and is taken out of it.
pub acquire-count :
    (w : WorkerIds) (p : ℤ → Bool)
    → w.enabled ≡ true
    → 0 < length w.ids
    → (count p (acquire w).0.ids + bit (p (acquire w).1) ≡ count p w.ids)
      × (length (acquire w).0.ids + 1 ≡ length w.ids)
      × ((acquire w).0.enabled ≡ true)
unfolding acquire
acquire-count w p on h = elim (Option-cases (pop w.ids)) [
  | inl e ↦ absurd (ground (arith, pop-none w.ids e))
  | inr ((id, rest), e) ↦ ground (
    arith,
    count-pop p w.ids id rest e,
    e,
    pop-some w.ids id rest e,
    length-append rest (id ∷ []),
  )
]

-- What is released goes back into an enabled pool, if it is no placeholder.
pub release-count :
    (w : WorkerIds) (id : ℤ) (k : ℕ)
    → w.enabled ≡ true
    → (count (is_pos k) (release id w).ids ≡ count (is_pos k) w.ids + bit (is_pos k id))
      × ((release id w).enabled ≡ true)
unfolding release
release-count w (pos n) k on = ground (arith, count-append (is_pos k) w.ids (pos n ∷ []))
release-count w (negsuc n) k on = ground arith

pub length-release :
    (w : WorkerIds) (n : ℕ) → w.enabled ≡ true → length (release (pos n) w).ids ≡ length w.ids + 1
unfolding release
length-release w n on = ground (arith, length-append w.ids (pos n ∷ []))

range-negative : (c : ℕ) → count is_negative (range c) ≡ 0
range-negative zero = refl
range-negative (suc c) =
    ground (arith, range-negative c, count-append is_negative (range c) (pos c ∷ []))

-- No pool has a placeholder among its identifiers.
pub new-negative : (c : ℕ) → count is_negative (new (some c)).ids ≡ 0
unfolding new
new-negative c = range-negative c

pub release-negative :
    (w : WorkerIds) (id : ℤ)
    → count is_negative w.ids ≡ 0
    → count is_negative (release id w).ids ≡ 0
unfolding release
release-negative w (pos n) h = ground (arith, count-append is_negative w.ids (pos n ∷ []))
release-negative w (negsuc n) h = ground arith
