-- ===== src/Tui/Rows/Selected.antt =====
-- The selected row against the list of the rows.
use tanu.Prelude.{
  ℕ, zero, suc, ◌+◌, ◌==◌, Bool, true, false, List, [], ◌∷◌, ◌++◌, some, Text, get_elem?,
  if◌then◌else◌, ◌≡◌, ◌∙◌, refl, sym, ap, arith, Bool-cases, inl, inr,
}
use tanu.Tui.{TestResult, TestState, ModuleState, ProjectState, TestCaseSelector}
use tanu.Tui.Rows.{
  Walk, found, goes_on, or_from, picked, below, http_calls, grpc_calls, result_for, test_row,
  http_selector, grpc_selector, module_row, project_row, select_calls, select_test_calls,
  select_tests, select_modules, select_projects, select_test_case,
}

-- the selectors of calls from an index on
abbrev pub call_rows : {A : Type 0} → (ℕ → TestCaseSelector) → ℕ → List A → List TestCaseSelector
call_rows mark i [] = []
call_rows mark i (c ∷ cs) = mark i ∷ call_rows mark (i + 1) cs

module _ {T H G : Type 0} (results : List (TestResult H G)) where
  abbrev pub rows_of_test : Text → Text → TestState T H G → List TestCaseSelector
  rows_of_test project module_name t =
      test_row results project module_name t
      ∷ (if t.expanded
          then call_rows (http_selector project module_name t) 0
              (http_calls (result_for results project t))
            ++ call_rows (grpc_selector project module_name t) 0
                (grpc_calls (result_for results project t))
          else [])

  abbrev pub rows_of_tests : Text → Text → List (TestState T H G) → List TestCaseSelector
  rows_of_tests project module_name [] = []
  rows_of_tests project module_name (t ∷ ts) =
      rows_of_test project module_name t ++ rows_of_tests project module_name ts

  abbrev pub rows_of_modules : Text → List (ModuleState T H G) → List TestCaseSelector
  rows_of_modules project [] = []
  rows_of_modules project (m ∷ ms) =
      (module_row project m ∷ (if m.expanded then rows_of_tests project m.name m.tests else []))
      ++ rows_of_modules project ms

  -- All rows, from the top: a project, and if it is expanded its modules, each with its tests if it is
  -- expanded, each with its calls if it is.
  abbrev pub rows : List (ProjectState T H G) → List TestCaseSelector
  rows [] = []
  rows (p ∷ ps) =
      (project_row p ∷ (if p.expanded then rows_of_modules p.name p.modules else [])) ++ rows ps

-- a walk over rows that are there in a list
seek : ℕ → ℕ → List TestCaseSelector → Walk TestCaseSelector
seek selected n [] = goes_on n
seek selected n (x ∷ xs) = elim (n == selected) [
  | true ↦ found x
  | false ↦ seek selected (n + 1) xs
]

seek-append :
    (selected n : ℕ) (xs ys : List TestCaseSelector)
    → seek selected n (xs ++ ys) ≡ or_from (seek selected n xs) (λ k. seek selected k ys)
unfolding seek
seek-append selected n [] ys = refl
seek-append selected n (x ∷ xs) ys = elim (Bool-cases (n == selected)) [
  | inl y ↦ rw (y, seek) refl
  | inr e ↦ rw (e, seek) (seek-append selected (n + 1) xs ys)
]

seek-get_elem? :
    (selected n d : ℕ) (xs : List TestCaseSelector)
    → selected ≡ n + d
    → picked (seek selected n xs) ≡ get_elem? xs d
unfolding seek
seek-get_elem? selected n d [] h = refl
seek-get_elem? selected n zero (x ∷ xs) h = ground arith
seek-get_elem? selected n (suc d) (x ∷ xs) h =
    ground (arith, seek-get_elem? selected (n + 1) d xs (omega arith))

select_calls-seek :
    {A : Type 0} (mark : ℕ → TestCaseSelector) (selected i n : ℕ) (cs : List A)
    → select_calls mark selected i n cs ≡ seek selected n (call_rows mark i cs)
unfolding select_calls seek
select_calls-seek mark selected i n [] = refl
select_calls-seek mark selected i n (c ∷ cs) = elim (Bool-cases (n == selected)) [
  | inl y ↦ rw (y, seek, select_calls) refl
  | inr e ↦ rw (e, seek, select_calls) (select_calls-seek mark selected (i + 1) (n + 1) cs)
]

-- one row and what is below it, where the walk over what is below is known
seek_row :
    (selected n : ℕ) (x : TestCaseSelector) (xs : List TestCaseSelector) (w : Walk TestCaseSelector)
    → w ≡ seek selected (n + 1) xs
    → (elim (n == selected) as (λ b. Walk TestCaseSelector) [ true ↦ found x | false ↦ w ])
      ≡ seek selected n (x ∷ xs)
unfolding seek
seek_row selected n x xs w h =
    ap (λ v. elim (n == selected) as (λ b. Walk TestCaseSelector) [ true ↦ found x | false ↦ v ]) h

or_from_cong :
    (w : Walk TestCaseSelector) (f g : ℕ → Walk TestCaseSelector)
    → ((k : ℕ) → f k ≡ g k)
    → or_from w f ≡ or_from w g
or_from_cong (found x) f g h = refl
or_from_cong (goes_on k) f g h = h k

-- a part of the rows and what comes after it
seek_both :
    (selected n : ℕ) (w : Walk TestCaseSelector) (f : ℕ → Walk TestCaseSelector)
    (xs ys : List TestCaseSelector)
    → w ≡ seek selected n xs
    → ((k : ℕ) → f k ≡ seek selected k ys)
    → or_from w f ≡ seek selected n (xs ++ ys)
seek_both selected n w f xs ys h g =
    ap (λ v. or_from v f) h
    ∙ or_from_cong (seek selected n xs) f (λ k. seek selected k ys) g
    ∙ sym (seek-append selected n xs ys)

seek-below :
    (selected n : ℕ) (expanded : Bool) (f : ℕ → Walk TestCaseSelector) (xs : List TestCaseSelector)
    → ((k : ℕ) → f k ≡ seek selected k xs)
    → below expanded f n ≡ seek selected n (if expanded then xs else [])
unfolding seek
seek-below selected n true f xs h = h n
seek-below selected n false f xs h = refl

module _ {T H G : Type 0} (results : List (TestResult H G)) (selected : ℕ) where
  select_test_calls-seek :
      (project module_name : Text) (n : ℕ) (t : TestState T H G)
      → select_test_calls results selected project module_name n t
        ≡ seek selected n (
            if t.expanded
            then call_rows
                (http_selector project module_name t)
                0
                (http_calls (result_for results project t))
              ++ call_rows
                  (grpc_selector project module_name t)
                  0
                  (grpc_calls (result_for results project t))
            else [])
  unfolding select_test_calls
  select_test_calls-seek project module_name n t = seek-below selected n t.expanded _ _ (λ k.
      seek_both selected k _ _ _ _
        (select_calls-seek (http_selector project module_name t) selected 0 k
          (http_calls (result_for results project t)))
        (λ j.
          select_calls-seek (grpc_selector project module_name t) selected 0 j
            (grpc_calls (result_for results project t))))

  select_tests-seek :
      (project module_name : Text) (n : ℕ) (ts : List (TestState T H G))
      → select_tests results selected project module_name n ts
        ≡ seek selected n (rows_of_tests results project module_name ts)
  unfolding select_tests seek
  select_tests-seek project module_name n [] = refl
  select_tests-seek project module_name n (t ∷ ts) =
      seek_row selected n (test_row results project module_name t) _ _ (
        seek_both selected (n + 1) _ _ _ _ (select_test_calls-seek project module_name (n + 1) t)
          (λ k. select_tests-seek project module_name k ts))

  select_modules-seek :
      (project : Text) (n : ℕ) (ms : List (ModuleState T H G))
      → select_modules results selected project n ms
        ≡ seek selected n (rows_of_modules results project ms)
  unfolding select_modules seek
  select_modules-seek project n [] = refl
  select_modules-seek project n (m ∷ ms) = seek_row selected n (module_row project m) _ _ (
      seek_both selected (n + 1) _ _ _ _
        (seek-below selected (n + 1) m.expanded _ _
          (λ k. select_tests-seek project m.name k m.tests))
        (λ k. select_modules-seek project k ms))

  select_projects-seek :
      (n : ℕ) (ps : List (ProjectState T H G))
      → select_projects results selected n ps ≡ seek selected n (rows results ps)
  unfolding select_projects seek
  select_projects-seek n [] = refl
  select_projects-seek n (p ∷ ps) = seek_row selected n (project_row p) _ _ (
      seek_both selected (n + 1) _ _ _ _
        (seek-below selected (n + 1) p.expanded _ _ (λ k. select_modules-seek p.name k p.modules))
        (λ k. select_projects-seek k ps))

-- What is selected is the row at the selected index in the list of all rows, from the top: nothing
-- where the index is past the last row.
pub select_test_case-rows :
    {T H G : Type 0} (results : List (TestResult H G)) (selected : ℕ)
    (ps : List (ProjectState T H G))
    → select_test_case results (some selected) ps ≡ get_elem? (rows results ps) selected
unfolding select_test_case
select_test_case-rows results selected ps =
    ap picked (select_projects-seek results selected 0 ps)
    ∙ seek-get_elem? selected 0 selected (rows results ps) (omega arith)
