-- ===== src/Tui/Starts.antt =====
-- Which tests of the list are marked as executing when an item of the list is executed.
use tanu.Prelude.{
  ℕ, ◌<◌, Bool, true, false, List, ◌++◌, map, Option, none, some, Text, codes, text_eq, text_eq_iff,
  map_option, if◌then◌else◌, length, length-append, ◌≡◌, ◌∙◌, refl, ap, arith, Bool-cases, inl, inr,
}
use tanu.Runner.{full_name, TestInfo}
use tanu.Tui.{
  TestState, ModuleState, ProjectState, TestCaseSelector, execute_test, execute_module,
  execute_project, execute_in_module, execute_in_project, execute_specified, execute_all, is_named,
}
use tanu.Tui.Marks.{map_id, test_at, test_at-map, apply_to}

length_suffix : (a b : Text) → length b < length (a ++ codes "::" ++ b)
length_suffix a b = omega (arith, length-append (a ++ codes "::") b, length-append a (codes "::"))

length-full_name : (info : TestInfo) → length info.name < length (full_name info)
unfolding full_name
length-full_name info = length_suffix info.module_path info.name

longer : (info : TestInfo) → text_eq info.name (full_name info) ≡ false
longer info = elim (Bool-cases (text_eq info.name (full_name info))) [
  | inl y ↦ absurd (
      omega
        (arith, ap length ((text_eq_iff info.name (full_name info)).0 y), length-full_name info))
  | inr n ↦ n
]

module _ {T H G : Type 0} (begun : T) where
  abbrev test_if : Bool → Option Text → TestState T H G → TestState T H G
  test_if false test = λ t. t
  test_if true none = execute_test begun
  test_if true (some name) = λ t. if text_eq t.info.name name then execute_test begun t else t

  abbrev begin_if : Bool → Option Text → Option Text → Text → TestState T H G → TestState T H G
  begin_if false module_name test m = λ t. t
  begin_if true none none m = execute_test begun
  begin_if true none (some name) m = λ t. t
  begin_if true (some module_name) test m = test_if (text_eq m module_name) test

  -- what the execution of a selected item makes of each test
  abbrev pub marked : TestCaseSelector → Text → Text → TestState T H G → TestState T H G
  marked sel p = begin_if (text_eq p sel.project) sel.module_name sel.test

  abbrev module_if : Bool → Option Text → Option Text → ModuleState T H G → ModuleState T H G
  module_if false module_name test m = m
  module_if true none none m = execute_module begun m
  module_if true none (some name) m = m
  module_if true (some module_name) test m =
      if text_eq m.name module_name then execute_in_module begun test m else m

  module_if-name :
      (b : Bool) (module_name test : Option Text) (m : ModuleState T H G)
      → (module_if b module_name test m).name ≡ m.name
  unfolding execute_module execute_in_module
  module_if-name false module_name test m = refl
  module_if-name true none none m = refl
  module_if-name true none (some name) m = refl
  module_if-name true (some module_name) none m = ground arith
  module_if-name true (some module_name) (some name) m = ground arith

  module_if-tests :
      (b : Bool) (module_name test : Option Text) (m : ModuleState T H G)
      → (module_if b module_name test m).tests ≡ map (begin_if b module_name test m.name) m.tests
  unfolding execute_module execute_in_module is_named
  module_if-tests false module_name test m = map_id m.tests
  module_if-tests true none none m = refl
  module_if-tests true none (some name) m = map_id m.tests
  module_if-tests true (some module_name) test m = elim (Bool-cases (text_eq m.name module_name)) [
    | inl y ↦ rw y (of_test test)
    | inr n ↦ rw n (map_id m.tests)
  ]
    where
      of_test :
          (o : Option Text) → (execute_in_module begun o m).tests ≡ map (test_if true o) m.tests
      of_test none = refl
      of_test (some name) = refl

  project_if : Bool → TestCaseSelector → ProjectState T H G → ProjectState T H G
  project_if b sel p = if b then execute_in_project begun sel p else p

  project_if-name :
      (b : Bool) (sel : TestCaseSelector) (p : ProjectState T H G)
      → (project_if b sel p).name ≡ p.name
  unfolding project_if execute_in_project execute_project
  project_if-name b sel p = ground arith

  project_if-modules :
      (b : Bool) (sel : TestCaseSelector) (p : ProjectState T H G)
      → (project_if b sel p).modules ≡ map (module_if b sel.module_name sel.test) p.modules
  unfolding project_if execute_in_project execute_project
  project_if-modules false sel p = map_id p.modules
  project_if-modules true sel p = of_names sel.module_name sel.test
    where
      of_names :
          (m t : Option Text)
          → (project_if true (record sel { module_name = m; test = t }) p).modules
            ≡ map (module_if true m t) p.modules
      of_names none none = refl
      of_names none (some name) = map_id p.modules
      of_names (some module_name) t = refl

  -- Executing a selected item marks each test below it as executing: those of the project, or of the
  -- modules of that name in it, or in these the tests whose name is the selected one. Every other test
  -- stays as it is, in its place.
  pub execute_specified-marked :
      (sel : TestCaseSelector) (i j l : ℕ) (ps : List (ProjectState T H G))
      → test_at i j l (execute_specified begun sel ps)
        ≡ map_option (apply_to (marked sel)) (test_at i j l ps)
  unfolding execute_specified project_if
  execute_specified-marked sel i j l ps =
      test_at-map (λ p. project_if (text_eq p.name sel.project) sel p)
        (λ n. module_if (text_eq n sel.project) sel.module_name sel.test) (marked sel)
        (λ p. project_if-name (text_eq p.name sel.project) sel p)
        (λ p. project_if-modules (text_eq p.name sel.project) sel p)
        (λ n. module_if-name (text_eq n sel.project) sel.module_name sel.test)
        (λ n. module_if-tests (text_eq n sel.project) sel.module_name sel.test) i j l ps

  kept :
      (project module_name : Text) (t : TestState T H G) (a b : Bool)
      → begin_if a (some module_name) (some (full_name t.info)) module_name t ≡ t
  kept project module_name t a b = ground (arith, longer t.info)

  -- Executing all marks every test of every module of every project as executing, in its place, and
  -- a place without a test stays so.
  pub execute_all-marked :
      (i j l : ℕ) (ps : List (ProjectState T H G))
      → test_at i j l (execute_all begun ps)
        ≡ map_option (apply_to (λ p m. execute_test begun)) (test_at i j l ps)
  unfolding execute_all execute_project execute_module
  execute_all-marked i j l ps =
      test_at-map (execute_project begun) (λ n. execute_module begun) (λ p m. execute_test begun)
        (λ p. refl) (λ p. refl) (λ n m. refl) (λ n m. refl) i j l ps

  -- A test that is selected by its full name, as the list selects it, is not marked as executing.
  pub execute_specified-full_name :
      (i j l : ℕ) (ps : List (ProjectState T H G)) (project module_name : Text)
      (t : TestState T H G) (http_call grpc_call : Option ℕ)
      → test_at i j l ps ≡ some (project, module_name, t)
      → test_at i j l (
          execute_specified begun
            (record {
              project = project;
              module_name = some module_name;
              test = some (full_name t.info);
              http_call_index = http_call;
              grpc_call_index = grpc_call;
            })
            ps)
        ≡ some (project, module_name, t)
  execute_specified-full_name i j l ps project module_name t http_call grpc_call h =
      let sel : TestCaseSelector = record {
        project = project;
        module_name = some module_name;
        test = some (full_name t.info);
        http_call_index = http_call;
        grpc_call_index = grpc_call;
      } in
      execute_specified-marked sel i j l ps
      ∙ ap (map_option (apply_to (marked sel))) h
      ∙ ap (λ u. some (project, module_name, u))
          (kept project module_name t (text_eq project project) true)
