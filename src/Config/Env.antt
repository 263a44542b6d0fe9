-- ===== src/Config/Env.antt =====
-- `load_env` of tanu-core/src/config.rs. The environment is the list that `std::env::vars` walks.
-- Names are texts, so that `k[len..]` drops as many characters: the bytes of an ASCII name. In another
-- name the cut of a misplaced prefix can fall inside a character, which panics; this is left out.
pub mod Loading
use tanu.Prelude.{
  ℕ, zero, suc, true, false, List, [], ◌∷◌, ◌++◌, map, Option, none, some, Text, codes, ◌≡◌, ◌∙◌,
  ap, refl, lookup, extend, last_value, lookup-extend, or_else, map_option, if◌then◌else◌, text_eq,
  contains, any, length, Bool-cases, inl, inr, contains-around, get_elem?, Elem, any-of_Elem,
  Elem-map, contains_refl,
}
use tanu.Config.{ProjectConfig, Config}

abbrev pub drop : ℕ → Text → Text
drop zero s = s
drop (suc n) [] = []
drop (suc n) (c ∷ s) = drop n s

abbrev pub tanu_config_env : Text
tanu_config_env = codes "TANU_CONFIG"

abbrev pub global_prefix : Text
global_prefix = codes "TANU_"

abbrev pub Var : Type 0
Var = Text × Text

module _ {V : Type 0} (lower upper : Text → Text) (string : Text → V) where
  -- format!("{PREFIX}_{}_", name.to_uppercase())
  unfoldable pub project_prefix : Text → Text
  project_prefix name = global_prefix ++ upper name ++ codes "_"

  -- `filter_map` over the variables
  abbrev pub filter_vars : (Var → Option (Text × V)) → List Var → List (Text × V)
  filter_vars f [] = []
  filter_vars f (x ∷ xs) =
      let rest = filter_vars f xs in elim (f x) [ none ↦ rest | some y ↦ y ∷ rest ]

  -- the closure that picks the global variables; the error it may log changes no value
  unfoldable pub global_entry : List Text → Var → Option (Text × V)
  global_entry project_prefixes (k, v) =
      if text_eq k tanu_config_env
      then none
      else if any (contains k) project_prefixes
      then none
      else if contains k global_prefix
      then some (lower (drop (length global_prefix) k), string v)
      else none

  -- the closure that picks the variables of one project
  unfoldable pub project_entry : Text → Var → Option (Text × V)
  project_entry prefix (k, v) =
      if contains k prefix then some (lower (drop (length prefix) k), string v) else none

  -- one round of the loop over the projects
  unfoldable pub load_project : List Var → List (Text × V) → ProjectConfig V → ProjectConfig V
  unfolding project_prefix project_entry extend
  load_project env global_vars p =
      let vars = filter_vars (project_entry (project_prefix p.name)) env in
      record p { values = extend global_vars (extend vars p.values) }

  unfoldable pub load_env : List Var → Config V → Config V
  unfolding global_entry load_project project_prefix
  load_env env c =
      let project_prefixes = map (λ p. project_prefix p.name) c.projects in
      let global_vars = filter_vars (global_entry project_prefixes) env in
      record c { projects = map (load_project env global_vars) c.projects }

  -- What a key of a project holds after loading: the last global variable of that name, else the last
  -- variable of the project, else the value of the file.
  pub lookup-load_project :
      (env : List Var) (global_vars : List (Text × V)) (p : ProjectConfig V) (k : Text)
      → lookup k (load_project env global_vars p).values
        ≡ or_else (last_value k global_vars) (
            or_else
              (last_value k (filter_vars (project_entry (project_prefix p.name)) env))
              (lookup k p.values))
  unfolding load_project
  lookup-load_project env global_vars p k =
      let vars = filter_vars (project_entry (project_prefix p.name)) env in
      lookup-extend k global_vars (extend vars p.values)
      ∙ ap (or_else (last_value k global_vars)) (lookup-extend k vars p.values)

  pub get_elem?-map :
      (f : ProjectConfig V → ProjectConfig V) (ps : List (ProjectConfig V)) (i : ℕ)
      → get_elem? (map f ps) i ≡ map_option f (get_elem? ps i)
  get_elem?-map f [] i = refl
  get_elem?-map f (p ∷ ps) zero = refl
  get_elem?-map f (p ∷ ps) (suc i) = get_elem?-map f ps i

  drop-append : (a b : Text) → drop (length a) (a ++ b) ≡ b
  drop-append [] b = refl
  drop-append (c ∷ a) b = drop-append a b

  taken :
      (prefix rest v : Text)
      → contains (prefix ++ rest) prefix ≡ true
      → project_entry prefix (prefix ++ rest, v) ≡ some (lower rest, string v)
  unfolding project_entry
  taken prefix rest v h = rw (h, drop-append)

  passed_over : (prefix k v : Text) → contains k prefix ≡ false → project_entry prefix (k, v) ≡ none
  unfolding project_entry
  passed_over prefix k v h = rw h

  blocked :
      (prefixes : List Text) (k v : Text)
      → any (contains k) prefixes ≡ true
      → global_entry prefixes (k, v) ≡ none
  unfolding global_entry
  blocked prefixes k v h = elim (Bool-cases (text_eq k tanu_config_env)) [
    | inl y ↦ rw y
    | inr n ↦ rw (n, h)
  ]

  -- A variable that is named by a project's prefix and a rest goes to that project under the rest in
  -- lower case; it is no global variable, and goes to no project whose prefix is not in its name.
  pub project_variable_isolated :
      (projects : List (ProjectConfig V)) (p q : ProjectConfig V) (rest v : Text)
      → Elem p projects
      → contains (project_prefix p.name ++ rest) (project_prefix q.name) ≡ false
      → (project_entry (project_prefix p.name) (project_prefix p.name ++ rest, v)
          ≡ some (lower rest, string v))
        × (global_entry
              (map (λ r. project_prefix r.name) projects)
              (project_prefix p.name ++ rest, v)
            ≡ none)
        × (project_entry (project_prefix q.name) (project_prefix p.name ++ rest, v) ≡ none)
  project_variable_isolated projects p q rest v m h =
      let k = project_prefix p.name ++ rest in
      let own : contains k (project_prefix p.name) ≡ true =
        contains-around [] (project_prefix p.name) rest (project_prefix p.name)
          (contains_refl (project_prefix p.name)) in
      (
        taken (project_prefix p.name) rest v own,
        blocked (map (λ r. project_prefix r.name) projects) k v (
            any-of_Elem (contains k) (Elem-map (λ (r : ProjectConfig V). project_prefix r.name) m)
              own),
        passed_over (project_prefix q.name) k v h,
      )

  -- A variable that has the global prefix in the middle of its name, and is none of a project's, is
  -- taken for a global one, and its key is its name without as many characters from its start.
  pub global_entry_misplaced :
      (prefixes : List Text) (a rest v : Text)
      → text_eq (a ++ global_prefix ++ rest) tanu_config_env ≡ false
      → any (contains (a ++ global_prefix ++ rest)) prefixes ≡ false
      → global_entry prefixes (a ++ global_prefix ++ rest, v)
        ≡ some (lower (drop 5 (a ++ global_prefix ++ rest)), string v)
  unfolding global_entry
  global_entry_misplaced prefixes a rest v h n =
      rw (h, n, contains-around a global_prefix rest global_prefix (contains_refl global_prefix))
