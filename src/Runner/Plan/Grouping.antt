-- ===== src/Runner/Plan/Grouping.antt =====
-- What sorting and grouping do to the ordered tests.
use tanu.Prelude.{
  ◌+◌, Bool, true, ◌&&◌, List, [], ◌∷◌, ◌++◌, Option, none, some, Text, text_eq, text_eq_iff,
  filter, count, bit, unwrap_or, if◌then◌else◌, Map, lookup, ◌≡◌, ◌∙◌, refl, sym, ap, subst, arith,
  All, append_assoc, Bool-cases, inl, inr,
}
use tanu.Runner.Plan.{
  Selected, insert_by_key, sort_by_key, group_key, push_group, group_loop, group, ordered_groups,
}
use tanu.Runner.Plan.Order.{Key, key_le, key_le_trans, key_le_total}

module _ {V F : Type 0} where
  abbrev pub key_of : Selected V F → Key
  key_of t = (t.info.serial_group, t.info.line)

  abbrev pub Below : Selected V F → List (Selected V F) → Type 0
  Below x = All (λ y. key_le (key_of x) (key_of y) ≡ true)

  abbrev pub IsSorted : List (Selected V F) → Type 0
  IsSorted [] = Unit
  IsSorted (x ∷ xs) = Below x xs × IsSorted xs

  Below-trans :
      (x y : Selected V F) (zs : List (Selected V F))
      → key_le (key_of x) (key_of y) ≡ true
      → Below y zs
      → Below x zs
  Below-trans x y [] h b = tt
  Below-trans x y (z ∷ zs) h b =
      (key_le_trans (key_of x) (key_of y) (key_of z) h b.0, Below-trans x y zs h b.1)

  Below-insert :
      (w x : Selected V F) (ys : List (Selected V F))
      → key_le (key_of w) (key_of x) ≡ true
      → Below w ys
      → Below w (insert_by_key x ys)
  unfolding insert_by_key
  Below-insert w x [] h b = (h, tt)
  Below-insert w x (y ∷ ys) h b = elim (Bool-cases (key_le (key_of x) (key_of y))) [
    | inl p ↦ rw p (h, b)
    | inr n ↦ rw n (b.0, Below-insert w x ys h b.1)
  ]

  insert-IsSorted :
      (x : Selected V F) (ys : List (Selected V F)) → IsSorted ys → IsSorted (insert_by_key x ys)
  unfolding insert_by_key
  insert-IsSorted x [] s = (tt, tt)
  insert-IsSorted x (y ∷ ys) s = elim (Bool-cases (key_le (key_of x) (key_of y))) [
    | inl p ↦ rw p ((p, Below-trans x y ys p s.0), s)
    | inr n ↦
        rw n
          (Below-insert y x ys (key_le_total (key_of x) (key_of y) n) s.0, insert-IsSorted x ys s.1)
  ]

  sort-IsSorted : (xs : List (Selected V F)) → IsSorted (sort_by_key xs)
  unfolding sort_by_key
  sort-IsSorted [] = tt
  sort-IsSorted (x ∷ xs) = insert-IsSorted x (sort_by_key xs) (sort-IsSorted xs)

  Below-filter :
      (p : Selected V F → Bool) (x : Selected V F) (ys : List (Selected V F))
      → Below x ys
      → Below x (filter p ys)
  Below-filter p x [] b = tt
  Below-filter p x (y ∷ ys) b = ground (arith, Below-filter p x ys b.1)

  filter-IsSorted :
      (p : Selected V F → Bool) (xs : List (Selected V F)) → IsSorted xs → IsSorted (filter p xs)
  filter-IsSorted p [] s = tt
  filter-IsSorted p (x ∷ xs) s = ground (arith, filter-IsSorted p xs s.1, Below-filter p x xs s.0)

  count-insert :
      (p : Selected V F → Bool) (x : Selected V F) (ys : List (Selected V F))
      → count p (insert_by_key x ys) ≡ bit (p x) + count p ys
  unfolding insert_by_key
  count-insert p x [] = ground arith
  count-insert p x (y ∷ ys) = ground (arith, count-insert p x ys)

  count-sort :
      (p : Selected V F → Bool) (xs : List (Selected V F)) → count p (sort_by_key xs) ≡ count p xs
  unfolding sort_by_key
  count-sort p [] = refl
  count-sort p (x ∷ xs) = ground (arith, count-sort p xs, count-insert p x (sort_by_key xs))

  count-filter :
      (p q : Selected V F → Bool) (xs : List (Selected V F))
      → count p (filter q xs) ≡ count (λ t. q t && p t) xs
  count-filter p q [] = refl
  count-filter p q (x ∷ xs) = ground (arith, count-filter p q xs)

  lookup-push :
      (k j : Text) (t : Selected V F) (gs : Map (List (Selected V F)))
      → lookup j (push_group k t gs)
        ≡ (if text_eq k j then some (unwrap_or (lookup j gs) [] ++ (t ∷ [])) else lookup j gs)
  unfolding lookup push_group
  lookup-push k j t [] = ground arith
  lookup-push k j t ((i, ts) ∷ gs) =
      ground (arith, lookup-push k j t gs, text_eq_iff i k, text_eq_iff i j, text_eq_iff k j)

  abbrev members : Text → List (Selected V F) → List (Selected V F)
  members k ts = filter (λ t. text_eq (group_key t) k) ts

  abbrev grown : Option (List (Selected V F)) → List (Selected V F) → Option (List (Selected V F))
  grown o [] = o
  grown o (x ∷ xs) = some (unwrap_or o [] ++ (x ∷ xs))

  grown_cons :
      (o : List (Selected V F)) (t : Selected V F) (fs : List (Selected V F))
      → grown (some (o ++ (t ∷ []))) fs ≡ some (o ++ (t ∷ fs))
  grown_cons o t [] = refl
  grown_cons o t (x ∷ xs) = ap some (append_assoc o (t ∷ []) (x ∷ xs))

  count-members :
      (k : Text) (ts : List (Selected V F))
      → grown none (members k ts) ≡ none
      → count (λ t. text_eq (group_key t) k) ts ≡ 0
  count-members k [] h = refl
  count-members k (t ∷ ts) h = ground (arith, count-members k ts)

  lookup-group_loop :
      (k : Text) (ts : List (Selected V F)) (gs : Map (List (Selected V F)))
      → lookup k (group_loop ts gs) ≡ grown (lookup k gs) (filter (λ t. text_eq (group_key t) k) ts)
  unfolding group_loop
  lookup-group_loop k [] gs = refl
  lookup-group_loop k (t ∷ ts) gs = elim (Bool-cases (text_eq (group_key t) k)) [
    | inl y ↦
        lookup-group_loop k ts (push_group (group_key t) t gs)
        ∙ rw (lookup-push, y) (grown_cons (unwrap_or (lookup k gs) []) t (members k ts))
    | inr n ↦ lookup-group_loop k ts (push_group (group_key t) t gs) ∙ rw (lookup-push, n) refl
  ]

  lookup-group :
      (k : Text) (ts : List (Selected V F)) → lookup k (group ts) ≡ grown none (members k ts)
  unfolding group lookup
  lookup-group k ts = lookup-group_loop k ts []

  grown-some : (ts us : List (Selected V F)) → grown none ts ≡ some us → us ≡ ts
  grown-some [] us h = cc
  grown-some (t ∷ ts) us h = cc

  -- Each group of ordered tests is sorted by its tests' serial group and line, and holds each
  -- selected test that is ordered and has the group's key, as often as it was selected, and no other.
  pub ordered_groups-lookup :
      (all_tests : List (Selected V F)) (k : Text) (ts : List (Selected V F))
      → lookup k (ordered_groups all_tests) ≡ some ts
      → IsSorted ts
        × ((p : Selected V F → Bool)
            → count p ts
              ≡ count (λ t. t.info.ordered && (text_eq (group_key t) k && p t)) all_tests)
  unfolding ordered_groups
  ordered_groups-lookup all_tests k ts h =
      let ordered = filter (λ (t : Selected V F). t.info.ordered) all_tests in
      let e : ts ≡ members k (sort_by_key ordered) =
        grown-some _ ts (sym (lookup-group k (sort_by_key ordered)) ∙ h) in
      (
        subst IsSorted (sym e)
            (filter-IsSorted (λ t. text_eq (group_key t) k) _ (sort-IsSorted ordered)),
        λ p.
            ap (count p) e
            ∙ count-filter p (λ t. text_eq (group_key t) k) (sort_by_key ordered)
            ∙ count-sort (λ t. text_eq (group_key t) k && p t) ordered
            ∙ count-filter (λ t. text_eq (group_key t) k && p t) (λ t. t.info.ordered) all_tests,
      )

  -- A key without a group is the key of no ordered test that was selected.
  pub ordered_groups-none :
      (all_tests : List (Selected V F)) (k : Text)
      → lookup k (ordered_groups all_tests) ≡ none
      → count (λ t. t.info.ordered && text_eq (group_key t) k) all_tests ≡ 0
  unfolding ordered_groups
  ordered_groups-none all_tests k h =
      let ordered = filter (λ (t : Selected V F). t.info.ordered) all_tests in
      sym (count-filter (λ t. text_eq (group_key t) k) (λ t. t.info.ordered) all_tests)
      ∙ sym (count-sort (λ t. text_eq (group_key t) k) ordered)
      ∙ count-members k (sort_by_key ordered) (sym (lookup-group k (sort_by_key ordered)) ∙ h)
