-- ===== src/Tui/Listing/Groups.antt =====
-- The groups of `into_group_map_by` in `TestListState::new` of tanu-tui/src/widget/list.rs.
use tanu.Prelude.{
  List, [], ◌∷◌, ◌++◌, Text, text_eq, text_eq_iff, ◌≡◌, ◌⊎◌, inl, inr, refl, sym, Elem, here, there,
  Elem-append, Elem-append_left, Elem-append_right, Bool-cases, ap, ◌∙◌, Elem-one,
}
use tanu.Tui.{TestState}
use tanu.Tui.Listing.{Groups, push_module, group_into}

module _ {T H G : Type 0} where
  -- the test stands in a group of that name
  abbrev pub Grouped : Groups T H G → Text → TestState T H G → Type 0
  Grouped [] n t = ⊥
  Grouped ((j, ts) ∷ gs) n t = ((j ≡ n) × Elem t ts) ⊎ Grouped gs n t

  pub Elem-Grouped :
      (gs : Groups T H G) {n : Text} {t : TestState T H G} {ts : List (TestState T H G)}
      → Elem (n, ts) gs
      → Elem t ts
      → Grouped gs n t
  Elem-Grouped gs {n = n} {t = t} {ts = ts} m k = go m
    where
      go : {hs : Groups T H G} → Elem (n, ts) hs → Grouped hs n t
      go here = inl (refl, k)
      go (there i) = inr (go i)

  pub Grouped-Elem :
      (gs : Groups T H G) {n : Text} {t : TestState T H G}
      → Grouped gs n t
      → (ts : List (TestState T H G)) × Elem (n, ts) gs × Elem t ts
  Grouped-Elem [] h = absurd h
  Grouped-Elem ((j, ts) ∷ gs) (inl (e, m)) = (ts, rw e here, m)
  Grouped-Elem ((j, ts) ∷ gs) (inr h) = let (us, i, m) = Grouped-Elem gs h in (us, there i, m)

  push-Grouped :
      (t : TestState T H G) (gs : Groups T H G) → Grouped (push_module t gs) t.info.module_path t
  unfolding push_module
  push-Grouped t [] = inl (refl, here)
  push-Grouped t ((j, ts) ∷ gs) = elim (Bool-cases (text_eq j t.info.module_path)) [
    | inl y ↦ rw y (inl ((text_eq_iff j t.info.module_path).0 y, Elem-append_right ts here))
    | inr n ↦ rw n (inr (push-Grouped t gs))
  ]

  Grouped-push :
      (u t : TestState T H G) (n : Text) (gs : Groups T H G)
      → Grouped gs n t
      → Grouped (push_module u gs) n t
  unfolding push_module
  Grouped-push u t n [] h = absurd h
  Grouped-push u t n ((j, ts) ∷ gs) h = elim (Bool-cases (text_eq j u.info.module_path)) [
    | inl y ↦ rw y (elim h [ inl (e, m) ↦ inl (e, Elem-append_left (u ∷ []) m) | inr r ↦ inr r ])
    | inr no_ ↦ rw no_ (elim h [ inl l ↦ inl l | inr r ↦ inr (Grouped-push u t n gs r) ])
  ]

  push_sound :
      (u t : TestState T H G) (n : Text) (gs : Groups T H G)
      → Grouped (push_module u gs) n t
      → Grouped gs n t ⊎ ((t ≡ u) × (t.info.module_path ≡ n))
  unfolding push_module
  push_sound u t n [] (inl (e, here)) = inr (refl, e)
  push_sound u t n [] (inl (e, there m)) = elim m [ ]
  push_sound u t n [] (inr h) = absurd h
  push_sound u t n ((j, ts) ∷ gs) h = elim (Bool-cases (text_eq j u.info.module_path)) [
    | inl y ↦ placed ((text_eq_iff j u.info.module_path).0 y) (rw y at h)
    | inr no_ ↦ later (push_sound u t n gs) (rw no_ at h)
  ]
    where
      appended :
          j ≡ u.info.module_path
          → j ≡ n
          → Elem t ts ⊎ Elem t (u ∷ [])
          → Grouped ((j, ts) ∷ gs) n t ⊎ ((t ≡ u) × (t.info.module_path ≡ n))
      appended w e (inl m) = inl (inl (e, m))
      appended w e (inr m) =
          let q : t ≡ u = Elem-one m in
          inr (q, ap (λ (s : TestState T H G). s.info.module_path) q ∙ sym w ∙ e)

      placed :
          j ≡ u.info.module_path
          → ((j ≡ n) × Elem t (ts ++ (u ∷ []))) ⊎ Grouped gs n t
          → Grouped ((j, ts) ∷ gs) n t ⊎ ((t ≡ u) × (t.info.module_path ≡ n))
      placed w (inl (e, m)) = appended w e (Elem-append ts (u ∷ []) m)
      placed w (inr r) = inl (inr r)

      later :
          (Grouped (push_module u gs) n t → Grouped gs n t ⊎ ((t ≡ u) × (t.info.module_path ≡ n)))
          → ((j ≡ n) × Elem t ts) ⊎ Grouped (push_module u gs) n t
          → Grouped ((j, ts) ∷ gs) n t ⊎ ((t ≡ u) × (t.info.module_path ≡ n))
      later f (inl l) = inl (inl l)
      later f (inr r) = elim (f r) [ inl g ↦ inl (inr g) | inr e ↦ inr e ]

  group-keeps :
      (t : TestState T H G) (n : Text) (ts : List (TestState T H G)) (gs : Groups T H G)
      → Grouped gs n t
      → Grouped (group_into ts gs) n t
  unfolding group_into
  group-keeps t n [] gs h = h
  group-keeps t n (u ∷ ts) gs h = group-keeps t n ts (push_module u gs) (Grouped-push u t n gs h)

  pub group_complete :
      (t : TestState T H G) {ts : List (TestState T H G)} (gs : Groups T H G)
      → Elem t ts
      → Grouped (group_into ts gs) t.info.module_path t
  unfolding group_into
  group_complete t gs (here {xs = xs}) =
      group-keeps t t.info.module_path xs (push_module t gs) (push-Grouped t gs)
  group_complete t gs (there {y = u} m) = group_complete t (push_module u gs) m

  pub group_sound :
      (t : TestState T H G) (n : Text) (ts : List (TestState T H G)) (gs : Groups T H G)
      → Grouped (group_into ts gs) n t
      → Grouped gs n t ⊎ (Elem t ts × (t.info.module_path ≡ n))
  unfolding group_into
  group_sound t n [] gs h = inl h
  group_sound t n (u ∷ ts) gs h = elim (group_sound t n ts (push_module u gs) h) [
    | inl g ↦ elim (push_sound u t n gs g) [ inl k ↦ inl k | inr (e, p) ↦ inr (rw e here, p) ]
    | inr (m, p) ↦ inr (there m, p)
  ]
