-- ===== src/Derive.antt =====
-- tanu-derive/src/lib.rs: the names and the groups that the macro `test` gives. An expression of syn is
-- what the code looks at of it; its tokens as `quote` prints them are a text in it.
pub mod Names
use tanu.Prelude.{
  ℕ, zero, suc, ◌-◌, ◌==◌, Bool, true, false, List, [], ◌∷◌, ◌++◌, map, Option, none, some, Text,
  codes, text_eq, starts_with, is_empty, length, join, if◌then◌else◌,
}
use tanu.Runner.{colons}

pub data Lit : Type 0 where
  str_lit : Text → Lit
  other_lit : Text → Lit

-- the first argument of a call
pub data FirstArg : Type 0 where
  no_args : FirstArg
  lit_arg : Lit → FirstArg
  other_arg : Text → FirstArg

pub data Expr : Type 0 where
  lit_expr : Lit → Expr
  path_expr : List Text → Option Text → Expr  -- its segments, and what `get_ident` returns
  call_expr : Option (List Text) → FirstArg → Expr  -- the path of the function, if it is one
  other_expr : Text → Expr

abbrev last : List Text → Option Text
last [] = none
last (s ∷ []) = some s
last (s ∷ t ∷ ts) = last (t ∷ ts)

-- `Some` of an argument
abbrev some_of : FirstArg → Option Text
some_of no_args = none
some_of (lit_arg (str_lit t)) = some t
some_of (lit_arg (other_lit t)) = some t
some_of (other_arg t) = some t

-- the last segment is `Some`
some_call : Option Text → FirstArg → Option Text
unfolding text_eq
some_call none arg = none
some_call (some segment) arg = if text_eq segment (codes "Some") then some_of arg else none

unfoldable pub none_path : Option Text → Option Text
unfolding text_eq
none_path none = none
none_path (some ident) = if text_eq ident (codes "None") then some (codes "None") else none

unfoldable pub extract_and_stringify_option : Expr → Option Text
unfolding some_call none_path
extract_and_stringify_option (lit_expr l) = none
extract_and_stringify_option (path_expr segments ident) = none_path ident
extract_and_stringify_option (call_expr none arg) = none
extract_and_stringify_option (call_expr (some path) arg) = some_call (last path) arg
extract_and_stringify_option (other_expr t) = none

-- `s.replace(pattern, by)` for a pattern that is not empty; `skip` is what is left of a match
replace_from : ℕ → Text → Text → Text → Text
unfolding starts_with
replace_from skip pattern by [] = []
replace_from (suc skip) pattern by (c ∷ s) = replace_from skip pattern by s
replace_from zero pattern by (c ∷ s) =
    let taken = replace_from (length pattern - 1) pattern by s in
    let kept = replace_from zero pattern by s in
    if starts_with (c ∷ s) pattern then by ++ taken else c ∷ kept

unfoldable pub replace : Text → Text → Text → Text
unfolding replace_from
replace pattern by s = replace_from zero pattern by s

-- the patterns in their order, with what they are replaced by
abbrev pub replacements : List (Text × Text)
replacements =
    (codes "+=", codes "_add_")
    ∷ (codes "+", codes "_add_")
    ∷ (codes "-=", codes "_sub_")
    ∷ (codes "-", codes "_sub_")
    ∷ (codes "/=", codes "_div_")
    ∷ (codes "/", codes "_div_")
    ∷ (codes "*=", codes "_mul_")
    ∷ (codes "*", codes "_mul_")
    ∷ (codes "%=", codes "_mod_")
    ∷ (codes "%", codes "_mod_")
    ∷ (codes "==", codes "_eq_")
    ∷ (codes "!=", codes "_nq_")
    ∷ (codes "&&", codes "_and_")
    ∷ (codes "||", codes "_or_")
    ∷ (codes "!", codes "not_")
    ∷ (codes "&=", codes "_and_")
    ∷ (codes "&", codes "_and_")
    ∷ (codes "|=", codes "_or_")
    ∷ (codes "|", codes "_or_")
    ∷ (codes "^=", codes "_xor_")
    ∷ (codes "^", codes "_xor_")
    ∷ (codes "<<=", codes "_lshift_")
    ∷ (codes "<<", codes "_lshift_")
    ∷ (codes "<=", codes "_le_")
    ∷ (codes "<", codes "_lt_")
    ∷ (codes ">>=", codes "_rshift_")
    ∷ (codes ">>", codes "_rshift_")
    ∷ (codes ">=", codes "_ge_")
    ∷ (codes ">", codes "_gt_")
    ∷ (codes "&mut ", [])
    ∷ (codes "*mut ", [])
    ∷ (codes "&", [])
    ∷ (codes "*", [])
    ∷ (codes " :: ", codes "_")
    ∷ (92 ∷ [], [])
    ∷ (codes "/", [])
    ∷ (34 ∷ [], [])
    ∷ (codes "(", [])
    ∷ (codes ")", [])
    ∷ (codes "{", [])
    ∷ (codes "}", [])
    ∷ (codes "[", [])
    ∷ (codes "]", [])
    ∷ (codes " ", [])
    ∷ (codes ",", codes "_")
    ∷ (codes ".", codes "_")
    ∷ []

unfoldable pub replace_all : List (Text × Text) → Text → Text
unfolding replace
replace_all [] s = s
replace_all ((pattern, by) ∷ rs) s = replace_all rs (replace pattern by s)

-- what an argument is in a name, before the replacements
unfoldable pub stringified : Expr → Option Text
unfolding extract_and_stringify_option
stringified (lit_expr (str_lit t)) = some t
stringified (lit_expr (other_lit t)) = some t
stringified (path_expr segments ident) = extract_and_stringify_option (path_expr segments ident)
stringified (call_expr path arg) = extract_and_stringify_option (call_expr path arg)
stringified (other_expr t) = some t

abbrev underscore : ℕ
underscore = b'_'

module _ (lower : Text → Text) where
  unfoldable pub argument_names : List Expr → List Text
  unfolding stringified replace_all
  argument_names [] = []
  argument_names (e ∷ es) = elim (stringified e) [
    | none ↦ argument_names es
    | some s ↦ lower (replace_all replacements s) ∷ argument_names es
  ]

  abbrev stringified_args : List Expr → Option Text → Text
  stringified_args args (some name) = name
  stringified_args args none = join underscore (argument_names args)

  unfoldable pub generate_test_name : Text → List Expr → Option Text → Text
  unfolding argument_names join
  generate_test_name func_name args name =
      if is_empty args then func_name else func_name ++ colons ++ stringified_args args name

-- the serial group that is registered, `module_path` being the module of the test
unfoldable pub serial_group_tokens : Bool → Option Text → Text → Option Text
serial_group_tokens true serial_group module_path = some module_path
serial_group_tokens false serial_group module_path = serial_group

pub data ErrorCrate : Type 0 where
  eyre : ErrorCrate
  anything_else : ErrorCrate

pub data ReturnType : Type 0 where
  default_type : ReturnType
  path_type : List Text → ReturnType
  other_type : ReturnType

abbrev is_eyre : Option Text → Option Text → Bool
unfolding text_eq
is_eyre none l = false
is_eyre (some f) none = false
is_eyre (some f) (some l) = if text_eq f (codes "eyre") then text_eq l (codes "Result") else false

-- `none` where the macro panics
unfoldable pub inspect_error_crate : ReturnType → Option ErrorCrate
unfolding is_eyre
inspect_error_crate default_type = none
inspect_error_crate other_type = none
inspect_error_crate (path_type []) = none
inspect_error_crate (path_type (s ∷ segments)) =
    if is_eyre (some s) (last (s ∷ segments)) then some eyre else some anything_else
