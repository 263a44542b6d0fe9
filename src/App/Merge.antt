-- ===== src/App/Merge.antt =====
-- What the command line and tanu.toml come to together.
use tanu.Prelude.{
  ℕ, Bool, true, false, not, ◌||◌, List, [], ◌∷◌, Option, none, some, Text, text_eq, text_eq_iff,
  text_eq_refl, codes, map_option, Bool-cases, sym, subst, ◌≢◌, Map, lookup, remove, insert,
  lookup-remove, is_err, or_else, unwrap_or, Elem, here, there, ◌≡◌, ◌∙◌, refl, ap, arith,
  Option-cases, inl, inr,
}
use tanu.Config.{CaptureHttpMode, off, all, on_failure, Config, RunnerConfig}
use tanu.Masking.{Settings}
use tanu.Runner.Options.{
  Runner, Options, with_config, apply_masking, add_reporter, set_capture_http_mode, capture_rust,
  show_sensitive, set_sensitive_overrides, set_concurrency, set_fail_fast, terminate_channel,
}
use tanu.App.{
  Flags, default_mode, mode_of, merged_mode, when, override, limit, configure_test, configure_tui,
  take_reporters, choose_reporters,
}

-- the mode that follows from the flag and from tanu.toml
pub data Chosen : Option Text → Option CaptureHttpMode → CaptureHttpMode → Type 0 where
  flag_on_failure :
      {file : Option CaptureHttpMode} → Chosen (some (codes "on-failure")) file on_failure
  flag_off : {file : Option CaptureHttpMode} → Chosen (some (codes "off")) file off
  flag_all :
      {flag : Text} {file : Option CaptureHttpMode}
      → flag ≢ codes "on-failure"
      → flag ≢ codes "off"
      → Chosen (some flag) file all
  from_file : {mode : CaptureHttpMode} → Chosen none (some mode) mode
  by_default : Chosen none none on_failure

-- what the runner of the subcommand `test` is set to
pub record Configured {V : Type 0} (flags : Flags) (c : Config V) (o : Options) : Type 0 where
  pub mode : Chosen flags.capture_http c.runner.capture_http o.capture_http
  pub rust : o.capture_rust ≡ (flags.capture_rust || unwrap_or c.runner.capture_rust false)
  pub masked :
      o.mask_sensitive ≡ not (flags.show_sensitive || unwrap_or c.runner.show_sensitive false)
  pub limited : o.concurrency ≡ or_else flags.concurrency c.runner.concurrency
  pub failing_fast : o.fail_fast ≡ (flags.fail_fast || unwrap_or c.runner.fail_fast false)
  pub closing : o.terminate_channel ≡ true
  pub keys : o.extra_sensitive_keys ≡ c.runner.extra_sensitive_keys
  pub headers : o.extra_sensitive_headers ≡ c.runner.extra_sensitive_headers

module _ {V : Type 0} where
  staged_options :
      (F B : Type 0) (mode : CaptureHttpMode) (joined shown failing : Bool) (ks hs : List Text)
      (lim : Option ℕ) (c : Config V)
      → (when failing (set_fail_fast true) (
          limit lim (
            override ks hs (
              when shown show_sensitive (
                when joined capture_rust
                  (set_capture_http_mode mode (with_config {F = F} {R = B} c))))))).options
        ≡ record {
          debug = false;
          capture_http = mode;
          capture_rust = joined;
          terminate_channel = false;
          concurrency = lim;
          mask_sensitive = not shown;
          fail_fast = failing;
          extra_sensitive_keys = ks;
          extra_sensitive_headers = hs;
        }
  unfolding override limit set_capture_http_mode capture_rust show_sensitive set_fail_fast
      set_concurrency set_sensitive_overrides with_config
  staged_options F B mode joined shown failing [] [] none c = ground arith
  staged_options F B mode joined shown failing [] [] (some n) c = ground arith
  staged_options F B mode joined shown failing [] (h ∷ hs) none c = ground arith
  staged_options F B mode joined shown failing [] (h ∷ hs) (some n) c = ground arith
  staged_options F B mode joined shown failing (k ∷ ks) hs none c = ground arith
  staged_options F B mode joined shown failing (k ∷ ks) hs (some n) c = ground arith

mode_of-Chosen :
    (flag : Text) (file : Option CaptureHttpMode) → Chosen (some flag) file (mode_of flag)
unfolding mode_of
mode_of-Chosen flag file = elim (Bool-cases (text_eq flag (codes "on-failure"))) [
  | inl y ↦ rw y (
      subst (λ x. Chosen (some x) file on_failure)
        (sym ((text_eq_iff flag (codes "on-failure")).0 y)) flag_on_failure)
  | inr n ↦ elim (Bool-cases (text_eq flag (codes "off"))) [
    | inl y ↦
        rw (n, y)
          (subst (λ x. Chosen (some x) file off) (sym ((text_eq_iff flag (codes "off")).0 y))
            flag_off)
    | inr m ↦
        rw (n, m)
          (flag_all (λ e. ground (arith, n, (text_eq_iff flag (codes "on-failure")).1 e))
            (λ e. ground (arith, m, (text_eq_iff flag (codes "off")).1 e)))
  ]
]

merged_mode-Chosen :
    (flags : Flags) (cfg : RunnerConfig)
    → Chosen flags.capture_http cfg.capture_http (merged_mode flags cfg)
unfolding merged_mode
merged_mode-Chosen flags cfg = by_flag flags.capture_http cfg.capture_http
  where
    by_flag :
        (flag : Option Text) (file : Option CaptureHttpMode)
        → Chosen flag file (unwrap_or (or_else (map_option mode_of flag) file) default_mode)
    by_flag (some t) file = mode_of-Chosen t file
    by_flag none (some m) = from_file
    by_flag none none = by_default

module _ {V : Type 0} where
  -- In the subcommand `test`, the mode of the HTTP logs is that of the command line (on-failure and off
  -- by these names, and all by any other), else that of tanu.toml, else on-failure. The concurrency of
  -- the command line wins over that of tanu.toml too. The switches of the two are joined, and the extra
  -- sensitive names are those of tanu.toml.
  pub configure_test-Configured :
      (F B : Type 0) (flags : Flags) (c : Config V)
      → Configured flags c (configure_test {F = F} {B = B} flags c (with_config c)).options
  unfolding configure_test terminate_channel
  configure_test-Configured F B flags c =
      let cfg = c.runner in
      let o =
        staged_options F B (merged_mode flags cfg)
          (flags.capture_rust || unwrap_or cfg.capture_rust false)
          (flags.show_sensitive || unwrap_or cfg.show_sensitive false)
          (flags.fail_fast || unwrap_or cfg.fail_fast false) cfg.extra_sensitive_keys
          cfg.extra_sensitive_headers (or_else flags.concurrency cfg.concurrency) c in
      record {
        mode =
            subst (Chosen flags.capture_http cfg.capture_http) (sym (ap (λ x. x.capture_http) o))
              (merged_mode-Chosen flags cfg);
        rust = ap (λ x. x.capture_rust) o;
        masked = ap (λ x. x.mask_sensitive) o;
        limited = ap (λ x. x.concurrency) o;
        failing_fast = ap (λ x. x.fail_fast) o;
        closing = refl;
        keys = ap (λ x. x.extra_sensitive_keys) o;
        headers = ap (λ x. x.extra_sensitive_headers) o;
      }

  -- In the subcommand `tui`, sensitive data is masked by the built-in names alone, whatever tanu.toml
  -- says of sensitive data.
  pub configure_tui-masking :
      (F B : Type 0) (lower : Text → Text) (concurrency : Option ℕ) (c : Config V) (cpus : ℕ)
      (s : Settings)
      → apply_masking lower (configure_tui {F = F} {B = B} concurrency c cpus (with_config c)) s
        ≡ record { mask_sensitive = true; extra_keys = []; extra_headers = [] }
  unfolding apply_masking configure_tui with_config
  configure_tui-masking F B lower concurrency c cpus s = refl

still_gone :
    {B : Type 0}
    → (n name : Text) (reporters : Map B) → lookup name reporters ≡ none
    → lookup name (remove n reporters) ≡ none
still_gone n name reporters e = ground (arith, lookup-remove n name reporters)

module _ {V F B : Type 0} where
  gone :
      {name : Text} {names : List Text} (reporters : Map B) (r : Runner V F B)
      → lookup name reporters ≡ none
      → Elem name names
      → is_err (take_reporters names reporters r) ≡ true
  unfolding take_reporters
  gone {name} reporters r left here = ground arith
  gone {name} reporters r left (there {y = n} m) = elim (Option-cases (lookup n reporters)) [
    | inl e ↦ ground arith
    | inr (b, e) ↦ ground (
      arith,
      e,
      gone (remove n reporters) (add_reporter b r) (still_gone n name reporters left) m,
    )
  ]

  first_taken :
      (name : Text) (names : List Text) (reporters : Map B) (r : Runner V F B)
      → Elem name names
      → is_err (take_reporters (name ∷ names) reporters r) ≡ true
  unfolding take_reporters
  first_taken name names reporters r m = elim (Option-cases (lookup name reporters)) [
    | inl e ↦ ground arith
    | inr (b, e) ↦ ground (
      arith,
      e,
      gone (remove name reporters) (add_reporter b r)
          (lookup-remove name name reporters ∙ rw (text_eq_refl name)) m,
    )
  ]

  -- A reporter that is named twice is refused, whether it is installed or not: its first mention takes
  -- it out of the map.
  pub choose_reporters-twice :
      (name : Text) (names : List Text) (third_party : Map B) (list_reporter : B) (r : Runner V F B)
      → Elem name names
      → is_err (choose_reporters (name ∷ names) third_party list_reporter r) ≡ true
  unfolding choose_reporters
  choose_reporters-twice name names third_party list_reporter r m =
      first_taken name names (insert (codes "list") list_reporter third_party) r m
