-- ===== src/Runner/Options.antt =====
-- `Options`, the setters of `Runner` in tanu-core/src/runner.rs, and what `run` does with them before
-- the first test: the masking settings, and the plan of the tests. `F` is the type of test factories,
-- `R` that of reporters. The ignore lists come from the global configuration, not from the runner's.
use tanu.Prelude.{
  ℕ, ◌+◌, Bool, true, false, List, [], ◌∷◌, ◌++◌, Option, none, some, Text, length, ap, ◌≡◌, refl,
}
use tanu.Config.{CaptureHttpMode, off, all, Config}
use tanu.Masking.{
  Settings, set_mask_sensitive, set_extra_sensitive_keys, set_extra_sensitive_headers,
}
use tanu.Runner.{TestInfo}
use tanu.Runner.Filters.{test_ignores}
use tanu.Runner.Plan.{Selected, effective_projects, select, ordered_groups, non_ordered_tests}

pub record Options : Type 0 where
  pub debug : Bool
  pub capture_http : CaptureHttpMode
  pub capture_rust : Bool
  pub terminate_channel : Bool
  pub concurrency : Option ℕ
  pub mask_sensitive : Bool
  pub fail_fast : Bool
  pub extra_sensitive_keys : List Text
  pub extra_sensitive_headers : List Text

abbrev pub default_options : Options
default_options = record {
  debug = false;
  capture_http = off;
  capture_rust = false;
  terminate_channel = false;
  concurrency = none;
  mask_sensitive = true;
  fail_fast = false;
  extra_sensitive_keys = [];
  extra_sensitive_headers = [];
}

pub record Runner (V F R : Type 0) : Type 0 where
  pub cfg : Config V
  pub options : Options
  pub test_cases : List (TestInfo × F)
  pub reporters : List R

unfoldable pub infos : {F : Type 0} → List (TestInfo × F) → List TestInfo
infos [] = []
infos ((info, factory) ∷ tests) = info ∷ infos tests

-- `handles.len()`: the tasks that are spawned
unfoldable pub total_tests : {V F : Type 0} → List (Selected V F) → ℕ
unfolding ordered_groups non_ordered_tests
total_tests tests = length (ordered_groups tests) + length (non_ordered_tests tests)

infos-append : {F : Type 0} (xs ys : List (TestInfo × F)) → infos (xs ++ ys) ≡ infos xs ++ infos ys
unfolding infos
infos-append [] ys = refl
infos-append (x ∷ xs) ys = ap (λ t. x.0 ∷ t) (infos-append xs ys)

module _ {V F R : Type 0} where
  unfoldable pub with_config : Config V → Runner V F R
  with_config cfg = record { cfg = cfg; options = default_options; test_cases = []; reporters = [] }

  abbrev with_options : (Options → Options) → Runner V F R → Runner V F R
  with_options f r = record r { options = f r.options }

  unfoldable pub capture_http : Runner V F R → Runner V F R
  capture_http = with_options (λ o. record o { capture_http = all })

  unfoldable pub set_capture_http_mode : CaptureHttpMode → Runner V F R → Runner V F R
  set_capture_http_mode mode = with_options (λ o. record o { capture_http = mode })

  unfoldable pub capture_rust : Runner V F R → Runner V F R
  capture_rust = with_options (λ o. record o { capture_rust = true })

  unfoldable pub terminate_channel : Runner V F R → Runner V F R
  terminate_channel = with_options (λ o. record o { terminate_channel = true })

  unfoldable pub set_concurrency : ℕ → Runner V F R → Runner V F R
  set_concurrency concurrency = with_options (λ o. record o { concurrency = some concurrency })

  unfoldable pub show_sensitive : Runner V F R → Runner V F R
  show_sensitive = with_options (λ o. record o { mask_sensitive = false })

  unfoldable pub set_sensitive_overrides : List Text → List Text → Runner V F R → Runner V F R
  set_sensitive_overrides keys headers =
      with_options
        (λ o. record o { extra_sensitive_keys = keys; extra_sensitive_headers = headers })

  unfoldable pub set_fail_fast : Bool → Runner V F R → Runner V F R
  set_fail_fast fail_fast = with_options (λ o. record o { fail_fast = fail_fast })

  unfoldable pub add_reporter : R → Runner V F R → Runner V F R
  add_reporter reporter r = record r { reporters = r.reporters ++ (reporter ∷ []) }

  unfoldable pub add_test : Text → Text → Option Text → ℕ → Bool → F → Runner V F R → Runner V F R
  add_test name module_path serial_group line ordered factory r =
      let info : TestInfo = record {
        module_path = module_path;
        name = name;
        serial_group = serial_group;
        line = line;
        ordered = ordered;
      } in
      record r { test_cases = r.test_cases ++ ((info, factory) ∷ []) }

  unfoldable pub list : Runner V F R → List TestInfo
  unfolding infos
  list r = infos r.test_cases

  -- the first lines of `run`
  unfoldable pub apply_masking : (Text → Text) → Runner V F R → Settings → Settings
  unfolding set_mask_sensitive set_extra_sensitive_keys set_extra_sensitive_headers
  apply_masking lower r s = set_extra_sensitive_headers lower r.options.extra_sensitive_headers (
      set_extra_sensitive_keys lower r.options.extra_sensitive_keys
        (set_mask_sensitive r.options.mask_sensitive s))

  -- what `run` collects into `all_tests`
  unfoldable pub all_tests :
      Config V → List Text → List Text → List Text → Runner V F R → List (Selected V F)
  unfolding select test_ignores effective_projects
  all_tests global project_names module_names test_names r =
      select project_names module_names test_names (test_ignores global) r.test_cases
        (effective_projects r.cfg.projects)

  -- The tests are listed in the order in which they were added, each with what it was added under.
  pub list-add_test :
      (name module_path : Text) (serial_group : Option Text) (line : ℕ) (ordered : Bool)
      (factory : F) (r : Runner V F R)
      → list (add_test name module_path serial_group line ordered factory r)
        ≡ list r
          ++ (record {
            module_path = module_path;
            name = name;
            serial_group = serial_group;
            line = line;
            ordered = ordered;
          }
              ∷ [])
  unfolding list add_test
  list-add_test name module_path serial_group line ordered factory r = infos-append r.test_cases _
