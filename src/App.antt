-- ===== src/App.antt =====
-- `App::run` of tanu/src/app.rs: how the command line and tanu.toml configure the runner. `Flags` is
-- what clap's parser makes of the arguments. `B` is the type of boxed reporters. Writing to the
-- terminal, colours and logging are left out.
pub mod Merge
use tanu.Prelude.{
  ℕ, Bool, true, false, not, ◌&&◌, ◌||◌, List, [], ◌∷◌, ◌++◌, Option, none, some, Text, codes,
  text_eq, Map, lookup, remove, insert, Result, ok, err, is_empty, or_else, unwrap_or, map_option,
  if◌then◌else◌,
}
use tanu.Config.{CaptureHttpMode, off, all, on_failure, Config, RunnerConfig}
use tanu.Runner.Options.{
  Runner, set_capture_http_mode, capture_rust, show_sensitive, set_sensitive_overrides,
  set_concurrency, set_fail_fast, terminate_channel, add_reporter,
}

pub record Flags : Type 0 where
  pub capture_http : Option Text
  pub capture_rust : Bool
  pub show_sensitive : Bool
  pub reporters : List Text
  pub concurrency : Option ℕ
  pub fail_fast : Bool

abbrev pub default_mode : CaptureHttpMode
default_mode = on_failure

unfoldable pub mode_of : Text → CaptureHttpMode
unfolding text_eq
mode_of s =
    if text_eq s (codes "on-failure")
    then on_failure
    else if text_eq s (codes "off")
    then off
    else all

-- the mode of the command line, else of the file, else the default
unfoldable pub merged_mode : Flags → RunnerConfig → CaptureHttpMode
unfolding mode_of
merged_mode flags cfg =
    unwrap_or (or_else (map_option mode_of flags.capture_http) cfg.capture_http) default_mode

module _ {V F B : Type 0} where
  abbrev pub when : Bool → (Runner V F B → Runner V F B) → Runner V F B → Runner V F B
  when b f r = if b then f r else r

  unfoldable pub override : List Text → List Text → Runner V F B → Runner V F B
  unfolding set_sensitive_overrides
  override keys headers =
      when (not (is_empty keys) || not (is_empty headers)) (set_sensitive_overrides keys headers)

  unfoldable pub limit : Option ℕ → Runner V F B → Runner V F B
  unfolding set_concurrency
  limit none r = r
  limit (some concurrency) r = set_concurrency concurrency r

  -- the subcommand `test`, up to the reporters
  unfoldable pub configure_test : Flags → Config V → Runner V F B → Runner V F B
  unfolding merged_mode override limit set_capture_http_mode capture_rust show_sensitive
      set_fail_fast terminate_channel
  configure_test flags c r =
      let cfg = c.runner in
      let r₁ = set_capture_http_mode (merged_mode flags cfg) r in
      let r₂ = when (flags.capture_rust || unwrap_or cfg.capture_rust false) capture_rust r₁ in
      let r₃ =
        when (flags.show_sensitive || unwrap_or cfg.show_sensitive false) show_sensitive r₂ in
      let r₄ = override cfg.extra_sensitive_keys cfg.extra_sensitive_headers r₃ in
      let r₅ = limit (or_else flags.concurrency cfg.concurrency) r₄ in
      let r₆ = when (flags.fail_fast || unwrap_or cfg.fail_fast false) (set_fail_fast true) r₅ in
      terminate_channel r₆

  -- the subcommand `tui`; the last number is that of the processors
  unfoldable pub configure_tui : Option ℕ → Config V → ℕ → Runner V F B → Runner V F B
  unfolding set_concurrency
  configure_tui concurrency c cpus r =
      set_concurrency (unwrap_or (or_else concurrency c.runner.concurrency) cpus) r

  -- the loop that takes the reporters out of the map by their names
  take_reporters : List Text → Map B → Runner V F B → Result Text (Runner V F B)
  unfolding lookup remove add_reporter
  take_reporters [] reporters r = ok r
  take_reporters (name ∷ names) reporters r = elim (lookup name reporters) [
    | none ↦ err (codes "Unknown reporter: " ++ name)
    | some b ↦ take_reporters names (remove name reporters) (add_reporter b r)
  ]

  -- the built-in reporter is called "list", and is taken if none is named
  unfoldable pub choose_reporters :
      List Text → Map B → B → Runner V F B → Result Text (Runner V F B)
  unfolding take_reporters insert
  choose_reporters names third_party list_reporter r =
      take_reporters (if is_empty names then codes "list" ∷ [] else names)
        (insert (codes "list") list_reporter third_party) r
