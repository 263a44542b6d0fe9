-- ===== src/Config.antt =====
-- tanu-core/src/config.rs and error.rs: the configuration's data, the getters of a project, and the
-- settings of the retry policy. `toml::Value` is the parameter `V`, of which the code uses how a
-- string is made and read. An f32 is its bit pattern, a duration its number of nanoseconds.
pub mod Env
pub mod Load
pub mod Values
use tanu.Prelude.{
  ℕ, ◌*◌, Bool, true, false, List, [], ◌∷◌, Option, none, some, Text, codes, Result, ok, err, ok_or,
  ◌>>=◌, Map, lookup, unwrap_or, if◌then◌else◌, text_eq, ◌≡◌, arith,
}

pub data CaptureHttpMode : Type 0 where
  off all on_failure : CaptureHttpMode

-- what the deserializer hands to the visitor
pub data Scalar : Type 0 where
  a_bool : Bool → Scalar
  a_str : Text → Scalar
  another : Scalar

-- `visit_bool` and `visit_str` of the visitor; any other value is refused by serde
unfoldable pub deserialize_mode : Scalar → Option CaptureHttpMode
unfolding text_eq
deserialize_mode (a_bool v) = some (if v then all else off)
deserialize_mode (a_str v) =
    if text_eq v (codes "all")
    then some all
    else if text_eq v (codes "on-failure")
    then some on_failure
    else none
deserialize_mode another = none

pub data Error : Type 0 where
  load_error : Text → Error
  value_not_found : Text → Error
  value_error : Text → Error

abbrev pub seconds : ℕ → ℕ
seconds n = n * 1000000000

-- the bit pattern of 2.0
abbrev pub f32_two : ℕ
f32_two = 0x40000000

pub record RetryConfig : Type 0 where
  pub count : Option ℕ
  pub factor : Option ℕ
  pub jitter : Option Bool
  pub min_delay : Option ℕ
  pub max_delay : Option ℕ

abbrev pub default_retry : RetryConfig
default_retry = record {
  count = some 0;
  factor = some f32_two;
  jitter = some false;
  min_delay = some (seconds 1);
  max_delay = some (seconds 60);
}

-- what the builder of the `backon` crate is given
pub record Backoff : Type 0 where
  pub max_times : ℕ
  pub factor : ℕ
  pub min_delay : ℕ
  pub max_delay : ℕ
  pub jitter : Bool

unfoldable pub backoff : RetryConfig → Backoff
backoff r =
    let builder : Backoff = record {
      max_times = unwrap_or r.count 0;
      factor = unwrap_or r.factor f32_two;
      min_delay = unwrap_or r.min_delay (seconds 1);
      max_delay = unwrap_or r.max_delay (seconds 60);
      jitter = false;
    } in
    if unwrap_or r.jitter false then record builder { jitter = true } else builder

-- With jitter or without, as many retries are asked for as are configured.
pub backoff-max_times : (r : RetryConfig) → (backoff r).max_times ≡ unwrap_or r.count 0
unfolding backoff
backoff-max_times r = ground arith

pub record ProjectConfig (V : Type 0) : Type 0 where
  pub name : Text
  pub values : Map V  -- the field `data`
  pub test_ignore : List Text
  pub retry : RetryConfig

-- `..Default::default()` under the name "default"
abbrev pub default_project : {V : Type 0} → Text → ProjectConfig V
default_project name = record { name = name; values = []; test_ignore = []; retry = default_retry }

pub record RunnerConfig : Type 0 where
  pub capture_http : Option CaptureHttpMode
  pub capture_rust : Option Bool
  pub show_sensitive : Option Bool
  pub concurrency : Option ℕ
  pub fail_fast : Option Bool
  pub extra_sensitive_keys : List Text
  pub extra_sensitive_headers : List Text

abbrev pub default_runner : RunnerConfig
default_runner = record {
  capture_http = none;
  capture_rust = none;
  show_sensitive = none;
  concurrency = none;
  fail_fast = none;
  extra_sensitive_keys = [];
  extra_sensitive_headers = [];
}

-- `tui` holds the one field `payload`, and that the one field `color_theme`
pub record Config (V : Type 0) : Type 0 where
  pub projects : List (ProjectConfig V)
  pub color_theme : Option Text
  pub runner : RunnerConfig

abbrev pub default_config : {V : Type 0} → Config V
default_config = record {
  projects = default_project (codes "default") ∷ [];
  color_theme = none;
  runner = default_runner;
}

module _ {V : Type 0} where
  unfoldable pub get : Text → ProjectConfig V → Result Error V
  unfolding lookup
  get key p = ok_or (lookup key p.values) (value_not_found key)

module _ {V : Type 0} (as_str : V → Option Text) where
  unfoldable pub get_str : Text → ProjectConfig V → Result Error Text
  unfolding get
  get_str key p = do v ← get key p; ok_or (as_str v) (value_not_found key)

  -- `get_int`, `get_float`, `get_bool`, `get_datetime`, `get_array` and `get_object` differ in the
  -- parser alone, which is the standard library's, chrono's or serde_json's
  unfoldable pub get_parsed :
      {A : Type 0} → (Text → Result Text A) → Text → ProjectConfig V → Result Error A
  unfolding get_str
  get_parsed parse key p = elim (get_str key p) [
    | ok s ↦ elim (parse s) [ ok a ↦ ok a | err e ↦ err (value_error e) ]
    | err e ↦ err e
  ]
