-- ===== src/Prelude/Texts.antt =====
-- Text as the list of its code points, with the operations of `str` that the program calls.
pub mod Split
use Prim.Native.Nat.{ℕ}
use Prim.Native.Char.{code}
use Prim.Native.String.{String}
use mathlib.Core.Path.{◌≡◌, refl}
use mathlib.Core.Logic.{◌↔◌}
use mathlib.Core.Bool.{Bool, true, false, ◌&&◌, ◌||◌}
use mathlib.Core.List.{List, [], ◌∷◌, ◌++◌, append_assoc}
use native.Mathlib.Omega.{arith}
use tanu.Prelude.Tests.{◌==◌, if◌then◌else◌}
use tanu.Prelude.Lists.{any}

abbrev pub Text : Type 0
Text = List ℕ

abbrev pub codes : String → Text
codes String.[] = []
codes (String.◌∷◌ c s) = code c ∷ codes s

-- `a == b` on texts
unfoldable pub text_eq : Text → Text → Bool
text_eq [] [] = true
text_eq [] (d ∷ t) = false
text_eq (c ∷ s) [] = false
text_eq (c ∷ s) (d ∷ t) = (c == d) && text_eq s t

text_eq→eq : (s t : Text) → text_eq s t ≡ true → s ≡ t
unfolding text_eq
text_eq→eq [] [] h = refl
text_eq→eq [] (d ∷ t) h = ground arith
text_eq→eq (c ∷ s) [] h = ground arith
text_eq→eq (c ∷ s) (d ∷ t) h = ground (arith, text_eq→eq s t)

pub text_eq_refl : (s : Text) → text_eq s s ≡ true
unfolding text_eq
text_eq_refl [] = refl
text_eq_refl (c ∷ s) = ground (arith, text_eq_refl s)

eq→text_eq : (s t : Text) → s ≡ t → text_eq s t ≡ true
eq→text_eq s t e = ground (arith, text_eq_refl s)

pub text_eq_iff : (s t : Text) → (text_eq s t ≡ true) ↔ (s ≡ t)
text_eq_iff s t = (text_eq→eq s t, eq→text_eq s t)

-- `s.starts_with(p)`
unfoldable pub starts_with : Text → Text → Bool
starts_with s [] = true
starts_with [] (d ∷ p) = false
starts_with (c ∷ s) (d ∷ p) = (c == d) && starts_with s p

-- `s.contains(p)`
unfoldable pub contains : Text → Text → Bool
unfolding starts_with
contains [] p = starts_with [] p
contains (c ∷ s) p = starts_with (c ∷ s) p || contains s p

starts_with-append : (s p t : Text) → starts_with s p ≡ true → starts_with (s ++ t) p ≡ true
unfolding starts_with
starts_with-append [] [] [] h = refl
starts_with-append [] [] (x ∷ t) h = refl
starts_with-append (c ∷ s) [] t h = refl
starts_with-append [] (d ∷ p) t h = ground arith
starts_with-append (c ∷ s) (d ∷ p) t h = ground (arith, starts_with-append s p t)

starts_with→contains : (s p : Text) → starts_with s p ≡ true → contains s p ≡ true
unfolding contains
starts_with→contains [] p h = h
starts_with→contains (c ∷ s) p h = ground arith

contains-append_right : (s p t : Text) → contains s p ≡ true → contains (s ++ t) p ≡ true
unfolding contains
contains-append_right [] p t h = starts_with→contains t p (starts_with-append [] p t h)
contains-append_right (c ∷ s) p t h =
    ground (arith, contains-append_right s p t, starts_with-append (c ∷ s) p t)

contains-append_left : (a s p : Text) → contains s p ≡ true → contains (a ++ s) p ≡ true
unfolding contains
contains-append_left [] s p h = h
contains-append_left (c ∷ a) s p h = ground (arith, contains-append_left a s p)

-- A text that has `p` in it still has it inside a longer text.
pub contains-around : (a s b p : Text) → contains s p ≡ true → contains (a ++ s ++ b) p ≡ true
contains-around a s b p h = contains-append_right (a ++ s) p b (contains-append_left a s p h)

-- `texts.contains(t)`
unfoldable pub text_mem : Text → List Text → Bool
unfolding text_eq
text_mem t ts = any (text_eq t) ts

starts_with_refl : (s : Text) → starts_with s s ≡ true
unfolding starts_with
starts_with_refl [] = refl
starts_with_refl (c ∷ s) = ground (arith, starts_with_refl s)

pub contains_refl : (s : Text) → contains s s ≡ true
contains_refl s = starts_with→contains s s (starts_with_refl s)
