-- ===== src/Examples/Macros.antt =====
-- The macros of tanu-core/src/assertion.rs and tanu-derive/src/lib.rs at concrete inputs.
use tanu.Prelude.{
  ℕ, ◌==◌, true, false, List, [], ◌∷◌, none, some, Text, codes, ◌≡◌, refl, All, Lacks, arith, here,
  there,
}
use tanu.Assertion.{Told, check_str_eq, check_eq, check_ne, comparisons-Told}
use tanu.Derive.{
  Expr, lit_expr, str_lit, path_expr, call_expr, lit_arg, other_lit, none_path, argument_names,
  generate_test_name,
}
use tanu.Derive.Names.{argument_names-Lacks, generate_test_name-paths}
use tanu.Examples.{lower}
use tanu.Examples.Interface.{info, started}

comparisons-Told_example :
    Told {H = ℕ} {G = ℕ} (codes "dev") info false (some (started ∷ [])) (
      check_str_eq
        (codes "dev")
        info
        (λ a b. a == b)
        (λ a b. codes "diff")
        200
        404
        none
        (some (started ∷ [])))
    × Told {H = ℕ} {G = ℕ} (codes "dev") info false (some (started ∷ [])) (
        check_eq
          (codes "dev")
          info
          (λ a b. a == b)
          (λ a b. codes "diff")
          200
          404
          none
          (some (started ∷ [])))
    × Told {H = ℕ} {G = ℕ} (codes "dev") info true (some (started ∷ [])) (
        check_ne
          (codes "dev")
          info
          (λ a b. a == b)
          (λ a. codes "200")
          200
          404
          none
          (some (started ∷ [])))
comparisons-Told_example =
    comparisons-Told (codes "dev") info (λ a b. a == b) 200 404 none (some (started ∷ []))
      (λ a b. codes "diff") (λ a. codes "200")

abbrev arguments : List Expr
arguments =
    lit_expr (str_lit (codes "A+B"))
    ∷ call_expr (some (codes "Some" ∷ [])) (lit_arg (other_lit (codes "1")))
    ∷ []

named : generate_test_name lower (codes "get") arguments none ≡ codes "get::a_add_b_1"
unfolding generate_test_name
named = refl

lower-Lacks : (t : Text) → Lacks 43 t → Lacks 43 (lower t)
lower-Lacks [] h = tt
lower-Lacks (c ∷ t) h = (ground (arith, h.0), lower-Lacks t h.1)

argument_names-Lacks_example : All (Lacks 43) (argument_names lower arguments)
argument_names-Lacks_example =
    argument_names-Lacks lower 43 arguments lower-Lacks (there (there here))

generate_test_name-paths_example :
    generate_test_name lower
      (codes "get")
      (lit_expr (str_lit (codes "a")) ∷ path_expr (codes "Status" ∷ codes "Ok" ∷ []) none ∷ [])
      none
    ≡ generate_test_name lower
        (codes "get")
        (lit_expr (str_lit (codes "a"))
          ∷ path_expr (codes "LIMIT" ∷ []) (some (codes "LIMIT"))
          ∷ [])
        none
unfolding none_path
generate_test_name-paths_example =
    generate_test_name-paths lower (codes "get") (lit_expr (str_lit (codes "a")) ∷ []) []
      (codes "Status" ∷ codes "Ok" ∷ []) (codes "LIMIT" ∷ []) none (some (codes "LIMIT")) refl refl
