-- ===== src/Config/Env/Loading.antt =====
-- What a project holds after `load_env` of tanu-core/src/config.rs, told by the names of the variables.
use tanu.Prelude.{
  ℕ, true, false, List, [], ◌∷◌, ◌++◌, map, Option, none, some, Text, codes, ◌≡◌, ◌≢◌, ◌∙◌, ap,
  refl, sym, subst, lookup, last_value, or_else, map_option, text_eq, text_eq_iff, text_eq_refl,
  contains, starts_with, any, length, Bool-cases, inl, inr, get_elem?, All, arith, contains-around,
  contains_refl,
}
use tanu.Config.{ProjectConfig, Config}
use tanu.Config.Env.{
  Var, drop, project_prefix, filter_vars, global_entry, project_entry, load_project, load_env,
  lookup-load_project, get_elem?-map,
}

-- `p` stands in `s`
abbrev pub Stands : Text → Text → Type 0
Stands p s = (a : Text) × (b : Text) × (s ≡ a ++ p ++ b)

starts_with-rest : (s p : Text) → starts_with s p ≡ true → (b : Text) × (s ≡ p ++ b)
unfolding starts_with
starts_with-rest s [] h = (s, refl)
starts_with-rest [] (d ∷ p) h = ground arith
starts_with-rest (c ∷ s) (d ∷ p) h =
    let (b, e) = starts_with-rest s p (ground (arith, h)) in (b, ground (arith, h, e))

contains-Stands : (s p : Text) → contains s p ≡ true → Stands p s
unfolding contains
contains-Stands [] p h = let (b, e) = starts_with-rest [] p h in ([], b, e)
contains-Stands (c ∷ s) p h = elim (Bool-cases (starts_with (c ∷ s) p)) [
  | inl y ↦ let (b, e) = starts_with-rest (c ∷ s) p y in ([], b, e)
  | inr n ↦
      let (a, b, e) = contains-Stands s p (ground (arith, h, n)) in (c ∷ a, b, ap (λ t. c ∷ t) e)
]

Stands-contains : (s p : Text) → Stands p s → contains s p ≡ true
Stands-contains s p (a, b, e) =
    subst (λ t. contains t p ≡ true) (sym e) (contains-around a p b p (contains_refl p))

not-Stands : (s p : Text) → contains s p ≡ false → ¬ Stands p s
not-Stands s p h q = ground (arith, h, Stands-contains s p q)

or_else-none : {A : Type 0} (o : Option A) → or_else o none ≡ o
or_else-none none = refl
or_else-none (some a) = refl

module _ {V : Type 0} (lower upper : Text → Text) (string : Text → V) where
  -- `TANU_`, the name of the project in upper case, and `_`
  abbrev pub prefix_of : ProjectConfig V → Text
  prefix_of p = codes "TANU_" ++ upper p.name ++ codes "_"

  -- A variable of the name `k` gives the key `x` to the project: the prefix of the project stands in
  -- its name, and the key is the name without as many characters, in lower case.
  abbrev pub IsOwn : ProjectConfig V → Text → Text → Type 0
  IsOwn p x k = Stands (prefix_of p) k × (x ≡ lower (drop (length (prefix_of p)) k))

  -- A variable of the name `k` gives the key `x` to all projects: it is not TANU_CONFIG, the prefix of no
  -- project stands in its name but TANU_ does, and the key is the name without five characters, in
  -- lower case.
  abbrev pub IsGlobal : Config V → Text → Text → Type 0
  IsGlobal c x k =
      (k ≢ codes "TANU_CONFIG")
      × All (λ p. ¬ Stands (prefix_of p) k) c.projects
      × Stands (codes "TANU_") k
      × (x ≡ lower (drop 5 k))

  abbrev pub Lacks : (Text → Type 0) → List Var → Type 0
  Lacks P = All (λ kv. ¬ P kv.0)

  -- the value of the last variable with such a name, or none where there is no such variable
  pub data Last (P : Text → Type 0) : List Var → Option V → Type 0 where
    last :
        (before : List Var) (k v : Text) (after : List Var)
        → P k
        → Lacks P after
        → Last P (before ++ ((k, v) ∷ after)) (some (string v))
    missing : {env : List Var} → Lacks P env → Last P env none

  -- what a closure makes of a variable, for a key
  data Picked (P : Text → Type 0) (x : Text) : Var → Option (Text × V) → Type 0 where
    takes : (k v : Text) → P k → Picked P x (k, v) (some (x, string v))
    other :
        (kv : Var) (y : Text) (w : V)
        → (¬ P kv.0)
        → text_eq y x ≡ false
        → Picked P x kv (some (y, w))
    skips : (kv : Var) → (¬ P kv.0) → Picked P x kv none

  module _ (P : Text → Type 0) (x : Text) where
    missed :
        (kv : Var) (env : List Var) (w : Option V) → (¬ P kv.0) → Last P env w → Last P (kv ∷ env) w
    missed kv env w n (last before k v after h l) = last (kv ∷ before) k v after h l
    missed kv env w n (missing l) = missing (n, l)

    taken_first :
        (k v : Text) (env : List Var) (w : Option V)
        → P k
        → Last P env w
        → Last P ((k, v) ∷ env) (or_else w (some (string v)))
    taken_first k v env w h (last before j u after g l) = last ((k, v) ∷ before) j u after g l
    taken_first k v env w h (missing l) = last [] k v env h l

    picked_first :
        (kv : Var) (env : List Var) (rest : List (Text × V)) (o : Option (Text × V))
        → Picked P x kv o
        → Last P env (last_value x rest)
        → Last P (kv ∷ env) (last_value x (elim o [ none ↦ rest | some y ↦ y ∷ rest ]))
    unfolding last_value
    picked_first kv env rest o (takes k v h) l =
        rw (text_eq_refl x) (taken_first k v env (last_value x rest) h l)
    picked_first kv env rest o (other kv' y w n e) l = rw e (
        subst (Last P (kv ∷ env)) (sym (or_else-none (last_value x rest)))
          (missed kv env (last_value x rest) n l))
    picked_first kv env rest o (skips kv' n) l = missed kv env (last_value x rest) n l

    filter_vars-Last :
        (f : Var → Option (Text × V))
        → ((kv : Var) → Picked P x kv (f kv))
        → (env : List Var) → Last P env (last_value x (filter_vars lower upper string f env))
    unfolding last_value
    filter_vars-Last f h [] = missing tt
    filter_vars-Last f h (kv ∷ env) =
        picked_first kv env (filter_vars lower upper string f env) (f kv) (h kv)
          (filter_vars-Last f h env)

  keyed :
      (P : Text → Type 0) (x k v key : Text)
      → (x ≡ key → P k)
      → (P k → x ≡ key)
      → Picked P x (k, v) (some (key, string v))
  keyed P x k v key h g = elim (Bool-cases (text_eq key x)) [
    | inl y ↦
        let e : key ≡ x = (text_eq_iff key x).0 y in
        subst (λ z. Picked P x (k, v) (some (z, string v))) (sym e) (takes k v (h (sym e)))
    | inr n ↦
        other (k, v) key (string v) (λ q. ground (arith, n, (text_eq_iff key x).1 (sym (g q)))) n
  ]

  project_entry-Picked :
      (p : ProjectConfig V) (x : Text) (kv : Var)
      → Picked
          (IsOwn p x)
          x
          kv
          (project_entry lower upper string (project_prefix lower upper string p.name) kv)
  unfolding project_entry project_prefix
  project_entry-Picked p x (k, v) = elim (Bool-cases (contains k (prefix_of p))) [
    | inr n ↦ rw n (skips (k, v) (λ h. not-Stands k (prefix_of p) n h.0))
    | inl y ↦
        rw y (keyed (IsOwn p x) x k v _ (λ e. (contains-Stands k (prefix_of p) y, e)) (λ h. h.1))
  ]

  none-Stands :
      (k : Text) (ps : List (ProjectConfig V))
      → any (contains k) (map (λ p. project_prefix lower upper string p.name) ps) ≡ false
      → All (λ p. ¬ Stands (prefix_of p) k) ps
  unfolding project_prefix
  none-Stands k [] h = tt
  none-Stands k (p ∷ ps) h =
      (not-Stands k (prefix_of p) (ground (arith, h)), none-Stands k ps (ground (arith, h)))

  one-Stands :
      (k : Text) (ps : List (ProjectConfig V))
      → any (contains k) (map (λ p. project_prefix lower upper string p.name) ps) ≡ true
      → ¬ All (λ p. ¬ Stands (prefix_of p) k) ps
  unfolding project_prefix
  one-Stands k [] h a = ground (arith, h)
  one-Stands k (p ∷ ps) h a = elim (Bool-cases (contains k (prefix_of p))) [
    | inl y ↦ a.0 (contains-Stands k (prefix_of p) y)
    | inr n ↦ one-Stands k ps (ground (arith, h, n)) a.1
  ]

  global_entry-Picked :
      (c : Config V) (x : Text) (kv : Var)
      → Picked (IsGlobal c x) x kv (
          global_entry lower upper string
            (map (λ p. project_prefix lower upper string p.name) c.projects)
            kv)
  unfolding global_entry
  global_entry-Picked c x (k, v) = elim (Bool-cases (text_eq k (codes "TANU_CONFIG"))) [
    | inl y ↦ rw y (skips (k, v) (λ h. h.0 ((text_eq_iff k (codes "TANU_CONFIG")).0 y)))
    | inr n ↦
        elim (Bool-cases
          (any (contains k) (map (λ p. project_prefix lower upper string p.name) c.projects))) [
            | inl y ↦ rw (n, y) (skips (k, v) (λ h. one-Stands k c.projects y h.1))
            | inr m ↦ elim (Bool-cases (contains k (codes "TANU_"))) [
              | inr o ↦ rw (n, m, o) (skips (k, v) (λ h. not-Stands k (codes "TANU_") o h.2))
              | inl y ↦
                  rw (n, m, y)
                    (keyed (IsGlobal c x) x k v _
                      (λ e. (
                        λ q. ground (arith, n, (text_eq_iff k (codes "TANU_CONFIG")).1 q),
                        none-Stands k c.projects m,
                        contains-Stands k (codes "TANU_") y,
                        e,
                      ))
                      (λ h. h.3))
            ]
          ]
  ]

  -- what a project holds under a key after loading
  abbrev pub Loaded : List Var → Config V → ProjectConfig V → ProjectConfig V → Type 0
  Loaded env c p p' =
      (p'.name ≡ p.name)
      × (p'.test_ignore ≡ p.test_ignore)
      × (p'.retry ≡ p.retry)
      × ((x : Text)
          → (g : Option V) × (o : Option V) × Last (IsGlobal c x) env g
            × Last (IsOwn p x) env o
            × (lookup x p'.values ≡ or_else g (or_else o (lookup x p.values))))

  -- After loading, each project stands where it stood, with its name, its ignored tests and its retry
  -- settings. Each of its keys has the value of the last global variable of that key, else that of the
  -- last variable of the project of that key, else the value of the file. A variable is the project's
  -- where TANU_, the project's name in upper case and _ stand in its name; it is global where TANU_
  -- does, the name is not TANU_CONFIG, and no project's prefix stands in it. Its key is its name
  -- without as many characters as the prefix has, in lower case.
  pub load_env-Loaded :
      (env : List Var) (c : Config V) (i : ℕ) (p : ProjectConfig V)
      → get_elem? c.projects i ≡ some p
      → (p' : ProjectConfig V) × (get_elem? (load_env lower upper string env c).projects i
          ≡ some p')
        × Loaded env c p p'
  unfolding load_env
  load_env-Loaded env c i p h =
      let global =
        global_entry lower upper string
          (map (λ (q : ProjectConfig V). project_prefix lower upper string q.name) c.projects) in
      let globals = filter_vars lower upper string global env in
      let own = project_entry lower upper string (project_prefix lower upper string p.name) in
      (
        load_project lower upper string env globals p,
        get_elem?-map lower upper string (load_project lower upper string env globals) c.projects i
            ∙ ap (map_option (load_project lower upper string env globals)) h,
        (
          unfold load_project in refl,
          unfold load_project in refl,
          unfold load_project in refl,
          λ x. (
            last_value x globals,
            last_value x (filter_vars lower upper string own env),
            filter_vars-Last (IsGlobal c x) x global (global_entry-Picked c x) env,
            filter_vars-Last (IsOwn p x) x own (project_entry-Picked p x) env,
            lookup-load_project lower upper string env globals p x,
          ),
        ),
      )
