-- ===== src/Config/Load.antt =====
-- `Config::load` and `Config::load_from` of tanu-core/src/config.rs. The file system, the path
-- functions of the standard library and the TOML parser enter as the operations of `Files`.
use tanu.Prelude.{
  ℕ, Bool, true, false, not, ◌&&◌, List, [], ◌∷◌, ◌++◌, Option, none, some, Text, codes, ◌≡◌, inl,
  inr, refl, arith, Result, ok, err, if◌then◌else◌, text_eq, contains, unwrap_or, Bool-cases,
}
use tanu.Config.{Config, default_config, Error, load_error}
use tanu.Config.Env.{Var, load_env, tanu_config_env}

pub record Files (V : Type 0) : Type 0 where
  -- `File::open` and then `read_to_string`: `none` if the file does not open
  pub open_and_read : Text → Option (Result Text Text)
  -- `toml::from_str`, into the projects, the theme and the runner, each defaulted
  pub from_str : Text → Result Text (Config V)
  pub exists : Text → Bool
  pub extension : Text → Option Text
  pub main_separator : ℕ
  -- the `{:?}` of a path
  pub debug : Text → Text

module _ {V : Type 0} (lower upper : Text → Text) (string : Text → V) (files : Files V) where
  open files use {open_and_read, from_str, exists, extension, main_separator, debug}

  read_config : List Var → Result Text Text → Result Error (Config V)
  read_config env (err e) = err (load_error e)
  read_config env (ok buf) = elim (from_str buf) [
    | err e ↦ err (load_error (codes "failed to deserialize tanu.toml into tanu::Config: " ++ e))
    | ok helper ↦ ok (load_env lower upper string env helper)
  ]

  unfoldable pub load_from : List Var → Text → Result Error (Config V)
  unfolding read_config
  load_from env path = elim (open_and_read path) [
    | none ↦ ok default_config
    | some content ↦ read_config env content
  ]

  abbrev extension_ne_toml : Text → Bool
  extension_ne_toml path = elim (extension path) [
    | none ↦ true
    | some ext ↦ not (text_eq ext (codes "toml"))
  ]

  -- the test that detects a value where a path is meant
  unfoldable pub is_misuse : Text → Bool
  is_misuse path =
      extension_ne_toml path
      && not (contains path (main_separator ∷ []))
      && not (contains path (codes "/"))

  load_path : List Var → Text → Result Error (Config V)
  load_path env path =
      if is_misuse path
      then err (
          load_error (
            tanu_config_env
            ++ codes " should be a path to a config file, not a config value. Got: "
            ++ debug path
            ++ codes ". Use TANU_<KEY>=value for config values instead."))
      else if not (exists path)
      then err (
          load_error (
            codes "Config file specified by "
            ++ tanu_config_env
            ++ codes " not found: "
            ++ debug path))
      else load_from env path

  -- the second argument is the value of TANU_CONFIG
  unfoldable pub load : List Var → Option Text → Result Error (Config V)
  unfolding load_path
  load env (some path) = load_path env path
  load env none = load_from env (codes "tanu.toml")

  -- Where a configuration that was loaded comes from: nothing, or a file that was read.
  pub data Source (env : List Var) (path : Text) (c : Config V) : Type 0 where
    no_file : open_and_read path ≡ none → c ≡ default_config → Source env path c
    from_file :
        (buf : Text) (helper : Config V)
        → open_and_read path ≡ some (ok buf)
        → from_str buf ≡ ok helper
        → c ≡ load_env lower upper string env helper
        → Source env path c

  load_from-Source :
      (env : List Var) (path : Text) (c : Config V) → load_from env path ≡ ok c → Source env path c
  unfolding load_from
  load_from-Source env path c h = go (open_and_read path) refl
    where
      go : (o : Option (Result Text Text)) → open_and_read path ≡ o → Source env path c
      go none e = no_file e (ground arith)
      go (some (err x)) e = ground arith
      go (some (ok buf)) e = parsed (from_str buf) refl
        where
          parsed : (r : Result Text (Config V)) → from_str buf ≡ r → Source env path c
          parsed (err x) f = ground arith
          parsed (ok helper) f = from_file buf helper e f (ground arith)

  -- what holds of the value of TANU_CONFIG
  abbrev pub Checked : Option Text → Type 0
  Checked none = Unit
  Checked (some path) = (is_misuse path ≡ false) × (exists path ≡ true)

  load_path-ok :
      (env : List Var) (path : Text) (c : Config V)
      → load_path env path ≡ ok c
      → (is_misuse path ≡ false) × (exists path ≡ true) × (load_from env path ≡ ok c)
  unfolding load_path
  load_path-ok env path c h = elim (Bool-cases (is_misuse path)) [
    | inl y ↦ absurd (ground arith)
    | inr n ↦ elim (Bool-cases (exists path)) [
      | inl y ↦ (n, y, ground arith)
      | inr m ↦ absurd (ground arith)
    ]
  ]

  -- A configuration that `load` returns is the default one where the file does not open, and else the
  -- file's with the environment merged in. With TANU_CONFIG set the file exists and the value looks
  -- like a path.
  pub load-Source :
      (env : List Var) (var : Option Text) (c : Config V)
      → load env var ≡ ok c
      → Source env (unwrap_or var (codes "tanu.toml")) c × Checked var
  unfolding load
  load-Source env none c h = (load_from-Source env (codes "tanu.toml") c h, tt)
  load-Source env (some path) c h =
      let (fits, there, loaded) = load_path-ok env path c h in
      (load_from-Source env path c loaded, (fits, there))
