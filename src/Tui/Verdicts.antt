-- ===== src/Tui/Verdicts.antt =====
-- How a module and a project are shown after one of their tests has ended.
use tanu.Prelude.{
  Bool, true, false, List, [], ◌∷◌, ◌++◌, map, All, Bool-cases, inl, inr, ◌≡◌, refl, ap,
}
use tanu.Tui.{
  TestResult, ExecutionState, initialized, executing, executed, ProjectState, is_ok, overall, scan,
  settle, on_project_updated,
}

module _ {T H G : Type 0} where
  abbrev pub IsPassed : ExecutionState T H G → Type 0
  IsPassed initialized = ⊥
  IsPassed (executing t) = ⊥
  IsPassed (executed r) = is_ok r ≡ true

  abbrev pub IsUnfinished : ExecutionState T H G → Type 0
  IsUnfinished initialized = Unit
  IsUnfinished (executing t) = Unit
  IsUnfinished (executed r) = ⊥

  -- The new state of a whole whose parts have the states `ss`: a success if all have passed; a failure
  -- if one has failed and those before it have passed, also where later ones are not finished; as
  -- before if one is not finished and those before it have passed.
  pub data Verdict (result : Bool → ExecutionState T H G) (old : ExecutionState T H G)
      (ss : List (ExecutionState T H G)) (new : ExecutionState T H G) : Type 0 where
    passed : All IsPassed ss → new ≡ result true → Verdict result old ss new
    failed :
        (before after : List (ExecutionState T H G)) (r : TestResult H G)
        → ss ≡ before ++ (executed r ∷ after)
        → All IsPassed before
        → is_ok r ≡ false
        → new ≡ result false
        → Verdict result old ss new
    unfinished :
        (before after : List (ExecutionState T H G)) (s : ExecutionState T H G)
        → ss ≡ before ++ (s ∷ after)
        → All IsPassed before
        → IsUnfinished s
        → new ≡ old
        → Verdict result old ss new

  scanned :
      (result : Bool → ExecutionState T H G) (old : ExecutionState T H G)
      (ss : List (ExecutionState T H G))
      → Verdict result old ss (settle (scan ss) result old)
  unfolding scan settle
  scanned result old [] = passed tt refl
  scanned result old (initialized ∷ ss) = unfinished [] ss initialized refl tt tt refl
  scanned result old (executing t ∷ ss) = unfinished [] ss (executing t) refl tt tt refl
  scanned result old (executed r ∷ ss) = elim (Bool-cases (is_ok r)) [
    | inl good ↦ rw good (later r good (scanned result old ss))
    | inr bad ↦ rw bad (failed [] ss r refl tt bad refl)
  ]
    where
      later :
          {ss : List (ExecutionState T H G)} {new : ExecutionState T H G} (r : TestResult H G)
          → is_ok r ≡ true
          → Verdict result old ss new
          → Verdict result old (executed r ∷ ss) new
      later r good (passed all e) = passed (good, all) e
      later r good (failed before after q e all bad f) =
          failed (executed r ∷ before) after q (ap (λ us. executed r ∷ us) e) (good, all) bad f
      later r good (unfinished before after s e all u f) =
          unfinished (executed r ∷ before) after s (ap (λ us. executed r ∷ us) e) (good, all) u f

  -- A project is shown by its modules as a module is by its tests.
  pub on_project_updated-Verdict :
      (p : ProjectState T H G)
      → Verdict
          (overall p.name [])
          p.execution_state
          (map (λ m. m.execution_state) p.modules)
          (on_project_updated p).execution_state
  unfolding on_project_updated
  on_project_updated-Verdict p =
      scanned (overall p.name []) p.execution_state (map (λ m. m.execution_state) p.modules)
