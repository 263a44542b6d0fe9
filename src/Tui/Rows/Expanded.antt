-- ===== src/Tui/Rows/Expanded.antt =====
-- What `expand` makes of the tree, against the list of what each row leads to.
use tanu.Prelude.{
  ℕ, zero, suc, ◌+◌, ◌==◌, Bool, true, false, not, List, [], ◌∷◌, ◌++◌, map, length, length-map,
  get_elem?, get_elem?-map, unwrap_or, some, Text, if◌then◌else◌, ◌≡◌, refl, sym, ap, subst, arith,
}
use tanu.Tui.{TestResult, TestState, ModuleState, ProjectState}
use tanu.Tui.Rows.{Walk, found, goes_on, http_calls, grpc_calls, count_calls, result_for}
use tanu.Tui.Rows.Expand.{
  past_calls, expand_tests, expand_module, expand_modules, expand_project, expand_projects, expand,
}

-- A walk from `n` is right for what the rows lead to: it finds what the selected row leads to, or it has
-- counted all rows, and none of them that is selected leads to a change.
abbrev IsRight : {A : Type 0} → ℕ → ℕ → A → List A → Walk A → Type 0
IsRight selected n a outs (found u) = (d : ℕ) × (selected ≡ n + d) × (get_elem? outs d ≡ some u)
IsRight selected n a outs (goes_on k) =
    (k ≡ n + length outs) × ((d : ℕ) → selected ≡ n + d → unwrap_or (get_elem? outs d) a ≡ a)

module _ {A : Type 0} (selected : ℕ) where
  nil-IsRight : (n : ℕ) (a : A) → IsRight selected n a [] (goes_on n)
  nil-IsRight n a = (omega arith, λ d h. refl)

  hit-IsRight :
      (n : ℕ) (a u : A) (outs : List A)
      → (n == selected) ≡ true
      → IsRight selected n a (u ∷ outs) (found u)
  hit-IsRight n a u outs h = (0, ground (arith, h), refl)

  cons-IsRight :
      (n : ℕ) (a u : A) (outs : List A) (w : Walk A)
      → (selected ≡ n → u ≡ a)
      → IsRight selected (n + 1) a outs w
      → IsRight selected n a (u ∷ outs) w
  cons-IsRight n a u outs (found x) h r = (suc r.0, omega (arith, r.1), r.2)
  cons-IsRight n a u outs (goes_on k) h r = (omega (arith, r.0), at)
    where
      at : (d : ℕ) → selected ≡ n + d → unwrap_or (get_elem? (u ∷ outs) d) a ≡ a
      at zero e = h (omega (arith, e))
      at (suc d) e = r.1 d (omega (arith, e))

  miss-IsRight :
      (n : ℕ) (a u : A) (outs : List A) (w : Walk A)
      → (n == selected) ≡ false
      → IsRight selected (n + 1) a outs w
      → IsRight selected n a (u ∷ outs) w
  miss-IsRight n a u outs w h = cons-IsRight n a u outs w (λ e. ground (arith, h, e))

  -- one row, and the walk over what comes after it
  row-IsRight :
      (n : ℕ) (a u : A) (outs : List A) (w : Walk A)
      → IsRight selected (n + 1) a outs w
      → IsRight selected n a
          (u ∷ outs)
          (elim (n == selected) as (λ b. Walk A) [ true ↦ found u | false ↦ w ])
  row-IsRight n a u outs w r = go (n == selected) refl
    where
      go :
          (b : Bool)
          → (n == selected) ≡ b
          → IsRight selected n a (u ∷ outs) (elim b as (λ b. Walk A) [ true ↦ found u | false ↦ w ])
      go true y = hit-IsRight n a u outs y
      go false e = miss-IsRight n a u outs w e r

  -- the rows below one that is expanded
  below-IsRight :
      (expanded : Bool) (n : ℕ) (a : A) (outs : List A) (w : Walk A)
      → IsRight selected n a outs w
      → IsRight selected n a
          (if expanded then outs else [])
          (elim expanded as (λ b. Walk A) [ true ↦ w | false ↦ goes_on n ])
  below-IsRight true n a outs w r = r
  below-IsRight false n a outs w r = nil-IsRight n a

  found-append :
      (xs ys : List A) (d : ℕ) (u : A) → get_elem? xs d ≡ some u → get_elem? (xs ++ ys) d ≡ some u
  found-append [] ys d u h = ground (arith, h)
  found-append (x ∷ xs) ys zero u h = h
  found-append (x ∷ xs) ys (suc d) u h = found-append xs ys d u h

  append-IsRight :
      (n k : ℕ) (a : A) (xs ys : List A) (w : Walk A)
      → IsRight selected n a xs (goes_on k)
      → IsRight selected k a ys w
      → IsRight selected n a (xs ++ ys) w
  append-IsRight n k a [] ys w r s = subst (λ j. IsRight selected j a ys w) (omega (arith, r.0)) s
  append-IsRight n k a (x ∷ xs) ys w r s =
      cons-IsRight n a x (xs ++ ys) w (λ e. r.1 0 (omega (arith, e)))
        (append-IsRight (n + 1) k a xs ys w
          (omega (arith, r.0), λ d e. r.1 (suc d) (omega (arith, e))) s)

  -- rows that lead to no change
  calls-IsRight :
      {C : Type 0} (n : ℕ) (a : A) (cs : List C)
      → IsRight selected n a (map (λ c. a) cs) (goes_on (count_calls n cs))
  calls-IsRight n a [] = nil-IsRight n a
  calls-IsRight n a (c ∷ cs) =
      cons-IsRight n a a (map (λ c. a) cs) (goes_on (count_calls (n + 1) cs)) (λ e. refl)
        (calls-IsRight (n + 1) a cs)

module _ {A B : Type 0} (selected : ℕ) (f : A → B) where
  kept-map :
      (xs : List A) (d : ℕ) (a : A)
      → unwrap_or (get_elem? xs d) a ≡ a
      → unwrap_or (get_elem? (map f xs) d) (f a) ≡ f a
  kept-map [] d a h = refl
  kept-map (x ∷ xs) zero a h = ap f h
  kept-map (x ∷ xs) (suc d) a h = kept-map xs d a h

  map-IsRight :
      (n k : ℕ) (a : A) (xs : List A)
      → IsRight selected n a xs (goes_on k)
      → IsRight selected n (f a) (map f xs) (goes_on k)
  map-IsRight n k a xs r = (omega (arith, r.0, length-map f xs), λ d e. kept-map xs d a (r.1 d e))

  -- a walk over a part, and then one over the rest
  then-IsRight :
      (n : ℕ) (a : A) (xs : List A) (ys : List B) (w : Walk A) (g : ℕ → Walk B)
      → IsRight selected n a xs w
      → ((k : ℕ) → IsRight selected k (f a) ys (g k))
      → IsRight selected n
          (f a)
          (map f xs ++ ys)
          (elim w as (λ v. Walk B) [ found u ↦ found (f u) | goes_on k ↦ g k ])
  then-IsRight n a xs ys (found u) g r s =
      (r.0, r.1, found-append selected (map f xs) ys r.0 (f u) (get_elem?-map f xs r.0 r.2))
  then-IsRight n a xs ys (goes_on k) g r s =
      append-IsRight selected n k (f a) (map f xs) ys (g k) (map-IsRight n k a xs r) (s k)

  only-IsRight :
      (n : ℕ) (a : A) (xs : List A) (w : Walk A)
      → IsRight selected n a xs w
      → IsRight selected n
          (f a)
          (map f xs)
          (elim w as (λ v. Walk B) [ found u ↦ found (f u) | goes_on k ↦ goes_on k ])
  only-IsRight n a xs (found u) r = (r.0, r.1, get_elem?-map f xs r.0 r.2)
  only-IsRight n a xs (goes_on k) r = map-IsRight n k a xs r

module _ {T H G : Type 0} (results : List (TestResult H G)) where
  -- What each row of the tree leads to, from the top. A test that is expanded has a row for each call of
  -- its latest result, which leads to no change.
  abbrev pub by_tests : Text → List (TestState T H G) → List (List (TestState T H G))
  by_tests project [] = []
  by_tests project (t ∷ ts) =
      (record t { expanded = not t.expanded } ∷ ts)
      ∷ ((if t.expanded
            then map (λ c. t ∷ ts) (http_calls (result_for results project t))
              ++ map (λ c. t ∷ ts) (grpc_calls (result_for results project t))
            else [])
          ++ map (λ us. t ∷ us) (by_tests project ts))

  abbrev pub by_module : Text → ModuleState T H G → List (ModuleState T H G)
  by_module project m =
      if m.expanded then map (λ us. record m { tests = us }) (by_tests project m.tests) else []

  abbrev pub by_modules : Text → List (ModuleState T H G) → List (List (ModuleState T H G))
  by_modules project [] = []
  by_modules project (m ∷ ms) =
      (record m { expanded = not m.expanded } ∷ ms)
      ∷ (map (λ u. u ∷ ms) (by_module project m) ++ map (λ us. m ∷ us) (by_modules project ms))

  abbrev pub by_project : ProjectState T H G → List (ProjectState T H G)
  by_project p =
      if p.expanded then map (λ us. record p { modules = us }) (by_modules p.name p.modules) else []

  abbrev pub by_projects : List (ProjectState T H G) → List (List (ProjectState T H G))
  by_projects [] = []
  by_projects (p ∷ ps) =
      (record p { expanded = not p.expanded } ∷ ps)
      ∷ (map (λ u. u ∷ ps) (by_project p) ++ map (λ us. p ∷ us) (by_projects ps))

  module _ (selected : ℕ) where
    past-IsRight :
        (project : Text) (n : ℕ) (t : TestState T H G) (ts : List (TestState T H G))
        → IsRight selected n
            (t ∷ ts)
            (if t.expanded
              then map (λ c. t ∷ ts) (http_calls (result_for results project t))
                ++ map (λ c. t ∷ ts) (grpc_calls (result_for results project t))
              else [])
            (goes_on (past_calls results project t n))
    unfolding past_calls
    past-IsRight project n t ts =
        go t.expanded (http_calls (result_for results project t))
          (grpc_calls (result_for results project t))
      where
        go :
            (expanded : Bool) (hs : List H) (gs : List G)
            → IsRight selected n
                (t ∷ ts)
                (if expanded then map (λ c. t ∷ ts) hs ++ map (λ c. t ∷ ts) gs else [])
                (goes_on (if expanded then count_calls (count_calls n hs) gs else n))
        go true hs gs =
            append-IsRight selected n (count_calls n hs) (t ∷ ts) _ _
              (goes_on (count_calls (count_calls n hs) gs)) (calls-IsRight selected n (t ∷ ts) hs)
              (calls-IsRight selected (count_calls n hs) (t ∷ ts) gs)
        go false hs gs = nil-IsRight selected n (t ∷ ts)

    tests-IsRight :
        (project : Text) (n : ℕ) (ts : List (TestState T H G))
        → IsRight selected n ts (by_tests project ts) (expand_tests results selected project n ts)
    unfolding expand_tests
    tests-IsRight project n [] = nil-IsRight selected n []
    tests-IsRight project n (t ∷ ts) =
        let k = past_calls results project t (n + 1) in
        row-IsRight selected n (t ∷ ts) _ _ _ (
          append-IsRight selected (n + 1) k (t ∷ ts) _ _ _ (past-IsRight project (n + 1) t ts) (
            only-IsRight selected (λ us. t ∷ us) k ts (by_tests project ts)
              (expand_tests results selected project k ts) (tests-IsRight project k ts)))

    module-IsRight :
        (project : Text) (n : ℕ) (m : ModuleState T H G)
        → IsRight selected n m (by_module project m) (expand_module results selected project n m)
    unfolding expand_module
    module-IsRight project n m = below-IsRight selected m.expanded n m _ _ (
        only-IsRight selected (λ us. record m { tests = us }) n m.tests (by_tests project m.tests)
          (expand_tests results selected project n m.tests) (tests-IsRight project n m.tests))

    modules-IsRight :
        (project : Text) (n : ℕ) (ms : List (ModuleState T H G))
        → IsRight selected n ms
            (by_modules project ms)
            (expand_modules results selected project n ms)
    unfolding expand_modules
    modules-IsRight project n [] = nil-IsRight selected n []
    modules-IsRight project n (m ∷ ms) = row-IsRight selected n (m ∷ ms) _ _ _ (
        then-IsRight selected (λ u. u ∷ ms) (n + 1) m (by_module project m)
          (map (λ us. m ∷ us) (by_modules project ms))
          (expand_module results selected project (n + 1) m) _ (module-IsRight project (n + 1) m)
          (λ k.
            only-IsRight selected (λ us. m ∷ us) k ms (by_modules project ms)
              (expand_modules results selected project k ms) (modules-IsRight project k ms)))

    project-IsRight :
        (n : ℕ) (p : ProjectState T H G)
        → IsRight selected n p (by_project p) (expand_project results selected n p)
    unfolding expand_project
    project-IsRight n p = below-IsRight selected p.expanded n p _ _ (
        only-IsRight selected (λ us. record p { modules = us }) n p.modules
          (by_modules p.name p.modules) (expand_modules results selected p.name n p.modules)
          (modules-IsRight p.name n p.modules))

    projects-IsRight :
        (n : ℕ) (ps : List (ProjectState T H G))
        → IsRight selected n ps (by_projects ps) (expand_projects results selected n ps)
    unfolding expand_projects
    projects-IsRight n [] = nil-IsRight selected n []
    projects-IsRight n (p ∷ ps) = row-IsRight selected n (p ∷ ps) _ _ _ (
        then-IsRight selected (λ u. u ∷ ps) (n + 1) p (by_project p)
          (map (λ us. p ∷ us) (by_projects ps)) (expand_project results selected (n + 1) p) _
          (project-IsRight (n + 1) p)
          (λ k.
            only-IsRight selected (λ us. p ∷ us) k ps (by_projects ps)
              (expand_projects results selected k ps) (projects-IsRight k ps)))

    right-picked :
        (a : List (ProjectState T H G)) (outs : List (List (ProjectState T H G)))
        (w : Walk (List (ProjectState T H G)))
        → IsRight selected 0 a outs w
        → (elim w as (λ v. List (ProjectState T H G)) [ found us ↦ us | goes_on k ↦ a ])
          ≡ unwrap_or (get_elem? outs selected) a
    right-picked a outs (found u) r =
        sym (
          ap (λ o. unwrap_or o a) (subst (λ i. get_elem? outs i ≡ some u) (omega (arith, r.1)) r.2))
    right-picked a outs (goes_on k) r = sym (r.1 selected (omega arith))

    -- The rows from the top are a project, if it is expanded its modules, below each of these that is
    -- expanded its tests, and below each of these that is expanded the calls of its latest result.
    -- Expanding turns the item of the selected row alone: it is expanded if it was not, and else not.
    -- Where a call is selected, or no row, nothing changes.
    pub expand-by_projects :
        (ps : List (ProjectState T H G))
        → expand results (some selected) ps ≡ unwrap_or (get_elem? (by_projects ps) selected) ps
    unfolding expand
    expand-by_projects ps =
        right-picked ps (by_projects ps) (expand_projects results selected 0 ps)
          (projects-IsRight 0 ps)
