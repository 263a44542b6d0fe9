-- ===== src/Config/Values.antt =====
-- What the getters of `ProjectConfig` return.
use tanu.Prelude.{Option, none, some, Text, ◌≡◌, refl, sym, subst, arith, Result, ok, err, lookup}
use tanu.Config.{ProjectConfig, Error, value_not_found, value_error, get, get_str, get_parsed}

module _ {V A : Type 0} (as_str : V → Option Text) (parse : Text → Result Text A) where
  -- How a getter comes out, from what stands under the key.
  pub data Outcome (key : Text) (p : ProjectConfig V) : Result Error A → Type 0 where
    missing : lookup key p.values ≡ none → Outcome key p (err (value_not_found key))
    not_a_string :
        (v : V)
        → lookup key p.values ≡ some v
        → as_str v ≡ none
        → Outcome key p (err (value_not_found key))
    unparsed :
        (v : V) (t e : Text)
        → lookup key p.values ≡ some v
        → as_str v ≡ some t
        → parse t ≡ err e
        → Outcome key p (err (value_error e))
    parsed :
        (v : V) (t : Text) (a : A)
        → lookup key p.values ≡ some v
        → as_str v ≡ some t
        → parse t ≡ ok a
        → Outcome key p (ok a)

  at :
      {key : Text} {p : ProjectConfig V} (r q : Result Error A)
      → q ≡ r
      → Outcome key p r
      → Outcome key p q
  at r q e o = subst (Outcome _ _) (sym e) o

  of_text :
      (key : Text) (p : ProjectConfig V) (v : V) (t : Text) (r : Result Text A)
      → lookup key p.values ≡ some v
      → as_str v ≡ some t
      → parse t ≡ r
      → Outcome key p (get_parsed as_str parse key p)
  unfolding get_parsed get_str get
  of_text key p v t (ok a) e f g = at (ok a) _ (ground arith) (parsed v t a e f g)
  of_text key p v t (err x) e f g = at (err (value_error x)) _ (ground arith) (unparsed v t x e f g)

  of_value :
      (key : Text) (p : ProjectConfig V) (v : V) (o : Option Text)
      → lookup key p.values ≡ some v
      → as_str v ≡ o
      → Outcome key p (get_parsed as_str parse key p)
  unfolding get_parsed get_str get
  of_value key p v none e f = at (err (value_not_found key)) _ (ground arith) (not_a_string v e f)
  of_value key p v (some t) e f = of_text key p v t (parse t) e f refl

  of_lookup :
      (key : Text) (p : ProjectConfig V) (o : Option V)
      → lookup key p.values ≡ o
      → Outcome key p (get_parsed as_str parse key p)
  unfolding get_parsed get_str get
  of_lookup key p none e = at (err (value_not_found key)) _ (ground arith) (missing e)
  of_lookup key p (some v) e = of_value key p v (as_str v) e refl

  -- A getter parses the string under the key. A key that is missing and a value that is no string,
  -- as an integer of the file is none, are reported alike as not found; a string that does not parse
  -- is a value error.
  pub get_parsed-Outcome :
      (key : Text) (p : ProjectConfig V) → Outcome key p (get_parsed as_str parse key p)
  get_parsed-Outcome key p = of_lookup key p (lookup key p.values) refl
