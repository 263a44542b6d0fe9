-- ===== src/Examples/Settings.antt =====
-- Configuration: tanu-core/src/config.rs at concrete inputs.
use tanu.Prelude.{
  ℕ, true, List, [], ◌∷◌, none, some, Text, codes, ◌≡◌, refl, get_elem?, Result, ok, err, text_eq,
  if◌then◌else◌,
}
use tanu.Config.{ProjectConfig, Config, default_project, default_config, get_parsed}
use tanu.Config.Env.{Var, load_env}
use tanu.Config.Env.Loading.{Loaded, load_env-Loaded}
use tanu.Config.Load.{Files, load, load_from, is_misuse, load-Source, Source, Checked}
use tanu.Config.Values.{Outcome, get_parsed-Outcome}
use tanu.Examples.{lower, upper}

abbrev string : Text → Text
string t = t

abbrev dev : ProjectConfig Text
dev = record (default_project (codes "dev")) { values = (codes "url", codes "old") ∷ [] }

abbrev prod : ProjectConfig Text
prod = default_project (codes "prod")

abbrev config : Config Text
config = record default_config { projects = dev ∷ prod ∷ [] }

abbrev env : List Var
env =
    (codes "TANU_DEV_URL", codes "new")
    ∷ (codes "TANU_USER", codes "ann")
    ∷ (codes "HOME", codes "/")
    ∷ []

load_env-Loaded_example :
    (p' : ProjectConfig Text) × (get_elem? (load_env lower upper string env config).projects 0
      ≡ some p')
    × Loaded lower upper string env config dev p'
load_env-Loaded_example = load_env-Loaded lower upper string env config 0 dev refl

-- a file system with the one file my.toml
abbrev one_file : Files Text
one_file = record {
  open_and_read = λ path. if text_eq path (codes "my.toml") then some (ok []) else none;
  from_str = λ t. ok config;
  exists = λ path. true;
  extension = λ path. some (codes "toml");
  main_separator = b'/';
  debug = λ path. path;
}

load-Source_example :
    Source lower upper string one_file env
      (codes "my.toml")
      (load_env lower upper string env config)
    × Checked lower upper string one_file (some (codes "my.toml"))
unfolding is_misuse text_eq
load-Source_example =
    load-Source lower upper string one_file env (some (codes "my.toml"))
      (load_env lower upper string env config) (unfold load in unfold load_from in refl)

-- a parser that knows the text "1"
abbrev one : Text → Result Text ℕ
one t = if text_eq t (codes "1") then ok 1 else err (codes "invalid digit")

abbrev port : ProjectConfig Text
port = record (default_project (codes "dev")) { values = (codes "port", codes "1") ∷ [] }

get_parsed-Outcome_example :
    Outcome some one (codes "port") port (get_parsed some one (codes "port") port)
get_parsed-Outcome_example = get_parsed-Outcome some one (codes "port") port
