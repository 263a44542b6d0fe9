-- ===== src/Runner/Plan/Order.antt =====
-- The order of the keys `(serial_group, line)`: an absent group first, then by text, then by line.
use tanu.Prelude.{
  ℕ, Bool, true, false, ◌&&◌, ◌||◌, [], ◌∷◌, Option, none, some, Text, ◌≡◌, refl, arith, ltb, leb,
  ◌==◌, if◌then◌else◌,
}

unfoldable pub text_le : Text → Text → Bool
text_le [] t = true
text_le (c ∷ s) [] = false
text_le (c ∷ s) (d ∷ t) = ltb c d || (c == d && text_le s t)

unfoldable pub group_le : Option Text → Option Text → Bool
unfolding text_le
group_le none g = true
group_le (some s) none = false
group_le (some s) (some t) = text_le s t

abbrev pub Key : Type 0
Key = Option Text × ℕ

unfoldable pub key_le : Key → Key → Bool
unfolding group_le
key_le (g, l) (h, m) = if group_le g h then (if group_le h g then leb l m else true) else false

text_le_trans : (s t u : Text) → text_le s t ≡ true → text_le t u ≡ true → text_le s u ≡ true
unfolding text_le
text_le_trans [] t u p q = refl
text_le_trans (c ∷ s) [] u p q = ground arith
text_le_trans (c ∷ s) (d ∷ t) [] p q = ground arith
text_le_trans (c ∷ s) (d ∷ t) (e ∷ u) p q = ground (arith, text_le_trans s t u)

text_le_total : (s t : Text) → text_le s t ≡ false → text_le t s ≡ true
unfolding text_le
text_le_total [] t h = ground arith
text_le_total (c ∷ s) [] h = refl
text_le_total (c ∷ s) (d ∷ t) h = ground (arith, text_le_total s t)

group_le_trans :
    (g h k : Option Text) → group_le g h ≡ true → group_le h k ≡ true → group_le g k ≡ true
unfolding group_le
group_le_trans none h k p q = refl
group_le_trans (some s) none k p q = ground arith
group_le_trans (some s) (some t) none p q = ground arith
group_le_trans (some s) (some t) (some u) p q = text_le_trans s t u p q

group_le_total : (g h : Option Text) → group_le g h ≡ false → group_le h g ≡ true
unfolding group_le
group_le_total none h p = ground arith
group_le_total (some s) none p = refl
group_le_total (some s) (some t) p = text_le_total s t p

pub key_le_trans : (a b c : Key) → key_le a b ≡ true → key_le b c ≡ true → key_le a c ≡ true
key_le_trans (g, l) (h, m) (k, n) p q =
    unfold key_le in
    ground (arith, group_le_trans g h k, group_le_trans h k g, group_le_trans k g h)

pub key_le_total : (a b : Key) → key_le a b ≡ false → key_le b a ≡ true
key_le_total (g, l) (h, m) p =
    unfold key_le in ground (arith, group_le_total g h, group_le_total h g)
