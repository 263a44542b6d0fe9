-- ===== src/Examples/CommandLine.antt =====
-- The command line: tanu/src/app.rs at concrete inputs.
use tanu.Prelude.{ℕ, true, false, [], ◌∷◌, none, some, Text, codes}
use tanu.Config.{Config, default_config, default_runner, off}
use tanu.Runner.Options.{with_config}
use tanu.App.{Flags, configure_test}
use tanu.App.Merge.{Configured, configure_test-Configured}

abbrev flags : Flags
flags = record {
  capture_http = some (codes "all");
  capture_rust = false;
  show_sensitive = false;
  reporters = [];
  concurrency = none;
  fail_fast = true;
}

abbrev config : Config Text
config = record default_config {
  runner = record default_runner {
    capture_http = some off;
    show_sensitive = some true;
    concurrency = some 4;
    extra_sensitive_keys = codes "pin" ∷ [];
  };
}

configure_test-Configured_example :
    Configured flags config
      (configure_test flags config (with_config {F = ℕ} {R = ℕ} config)).options
configure_test-Configured_example = configure_test-Configured ℕ ℕ flags config
