-- ===== src/Prelude/Texts/Split.antt =====
-- `split`, `split_once` and `join` on one separator character.
use Prim.Native.Nat.{ℕ}
use mathlib.Core.Path.{◌≡◌, refl, ap, ◌∙◌}
use mathlib.Core.Logic.{◌≢◌}
use mathlib.Core.Option.{Option, none, some}
use mathlib.Core.List.{List, [], ◌∷◌, ◌++◌}
use native.Mathlib.Omega.{arith}
use tanu.Prelude.Tests.{◌==◌, if◌then◌else◌}
use tanu.Prelude.Lists.{All}

abbrev pub Lacks : ℕ → List ℕ → Type 0
Lacks sep = All (λ c. c ≢ sep)

-- `c` in front of the first part
abbrev push_head : ℕ → List (List ℕ) → List (List ℕ)
push_head c [] = (c ∷ []) ∷ []
push_head c (p ∷ ps) = (c ∷ p) ∷ ps

-- `s.split(sep)`: always at least one part
unfoldable pub split : ℕ → List ℕ → List (List ℕ)
split sep [] = [] ∷ []
split sep (c ∷ s) = let rest = split sep s in if c == sep then [] ∷ rest else push_head c rest

-- `s.split_once(sep)`
unfoldable pub split_once : ℕ → List ℕ → Option (List ℕ × List ℕ)
split_once sep [] = none
split_once sep (c ∷ s) =
    let rest = split_once sep s in
    if c == sep then some ([], s) else elim rest [ none ↦ none | some (k, v) ↦ some (c ∷ k, v) ]

-- `parts.join(sep)` for a separator of one character
unfoldable pub join : ℕ → List (List ℕ) → List ℕ
join sep [] = []
join sep (p ∷ []) = p
join sep (p ∷ q ∷ ps) = p ++ (sep ∷ join sep (q ∷ ps))

push_head-Lacks :
    (sep c : ℕ) (ps : List (List ℕ))
    → c ≢ sep
    → All (Lacks sep) ps
    → All (Lacks sep) (push_head c ps)
push_head-Lacks sep c [] h hs = ((h, tt), tt)
push_head-Lacks sep c (p ∷ ps) h hs = ((h, hs.0), hs.1)

-- No part holds the separator.
pub split-Lacks : (sep : ℕ) (s : List ℕ) → All (Lacks sep) (split sep s)
unfolding split
split-Lacks sep [] = (tt, tt)
split-Lacks sep (c ∷ s) = ground (arith, split-Lacks sep s, push_head-Lacks sep c (split sep s))

pub split-ne-nil : (sep : ℕ) (s : List ℕ) → split sep s ≢ []
unfolding split
split-ne-nil sep [] h = cc
split-ne-nil sep (c ∷ s) h = ground (arith, split-ne-nil sep s)

split-Lacks_one : (sep : ℕ) (p : List ℕ) → Lacks sep p → split sep p ≡ p ∷ []
unfolding split
split-Lacks_one sep [] h = refl
split-Lacks_one sep (c ∷ p) h = ground (arith, split-Lacks_one sep p h.1)

split-append : (sep : ℕ) (p s : List ℕ) → Lacks sep p → split sep (p ++ (sep ∷ s)) ≡ p ∷ split sep s
unfolding split
split-append sep [] s h = ground arith
split-append sep (c ∷ p) s h = ground (arith, split-append sep p s h.1)

-- Splitting undoes joining, for parts that lack the separator.
pub split-join :
    (sep : ℕ) (p : List ℕ) (ps : List (List ℕ))
    → All (Lacks sep) (p ∷ ps)
    → split sep (join sep (p ∷ ps)) ≡ p ∷ ps
unfolding join
split-join sep p [] h = split-Lacks_one sep p h.0
split-join sep p (q ∷ ps) h =
    split-append sep p (join sep (q ∷ ps)) h.0 ∙ ap (λ t. p ∷ t) (split-join sep q ps h.1)

-- The parts around the separator spell the text, and the first lacks it.
pub split_once-some :
    (sep : ℕ) (s k v : List ℕ) → split_once sep s ≡ some (k, v) → (s ≡ k ++ (sep ∷ v)) × Lacks sep k
unfolding split_once
split_once-some sep [] k v h = cc
split_once-some sep (c ∷ s) [] v h = ground arith
split_once-some sep (c ∷ s) (d ∷ k) v h = ground (arith, split_once-some sep s k v)

pub split_once-append :
    (sep : ℕ) (k v : List ℕ) → Lacks sep k → split_once sep (k ++ (sep ∷ v)) ≡ some (k, v)
unfolding split_once
split_once-append sep [] v h = ground arith
split_once-append sep (c ∷ k) v h = ground (arith, split_once-append sep k v h.1)
