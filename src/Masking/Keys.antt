-- ===== src/Masking/Keys.antt =====
-- Which names are sensitive: the built-in lists and the configured ones.
use tanu.Prelude.{
  true, List, ◌++◌, map, ◌≡◌, ◌↔◌, ◌∙◌, sym, subst, arith, Text, text_eq, text_eq_iff, text_eq_refl,
  contains, contains-around, any, any-Elem, any-of_Elem, any-append, Elem,
}
use tanu.Masking.{
  Settings, sensitive_key_substrings, sensitive_headers, set_extra_sensitive_keys,
  set_extra_sensitive_headers, is_sensitive_key, is_sensitive_header,
}

module _ (lower : Text → Text) where
  key_test :
      (s : Settings) (key : Text)
      → is_sensitive_key lower s key
        ≡ any (contains (lower key)) (sensitive_key_substrings ++ s.extra_keys)
  unfolding is_sensitive_key
  key_test s key =
      ground (arith, any-append (contains (lower key)) sensitive_key_substrings s.extra_keys)

  header_test :
      (s : Settings) (name : Text)
      → is_sensitive_header lower s name
        ≡ any (text_eq (lower name)) (sensitive_headers ++ s.extra_headers)
  unfolding is_sensitive_header
  header_test s name =
      ground (arith, any-append (text_eq (lower name)) sensitive_headers s.extra_headers)

  -- After `set_extra_sensitive_keys`, a name is sensitive exactly when its lower-case form has in it
  -- a built-in keyword or the lower-case form of a configured one.
  pub is_sensitive_key-set_extra :
      (s : Settings) (keys : List Text) (key : Text)
      → (is_sensitive_key lower (set_extra_sensitive_keys lower keys s) key ≡ true) ↔ (
          (p : Text) × Elem p (sensitive_key_substrings ++ map lower keys)
          × (contains (lower key) p ≡ true))
  unfolding set_extra_sensitive_keys
  is_sensitive_key-set_extra s keys key = (
    λ h.
        any-Elem (contains (lower key)) (sensitive_key_substrings ++ map lower keys)
          (sym (key_test (set_extra_sensitive_keys lower keys s) key) ∙ h),
    λ h.
        key_test (set_extra_sensitive_keys lower keys s) key
        ∙ any-of_Elem (contains (lower key)) h.1 h.2,
  )

  -- After `set_extra_sensitive_headers`, a header is sensitive exactly when its lower-case name is a
  -- built-in one or the lower-case form of a configured one: the whole name has to agree.
  pub is_sensitive_header-set_extra :
      (s : Settings) (headers : List Text) (name : Text)
      → (is_sensitive_header lower (set_extra_sensitive_headers lower headers s) name ≡ true)
        ↔ Elem (lower name) (sensitive_headers ++ map lower headers)
  unfolding set_extra_sensitive_headers
  is_sensitive_header-set_extra s headers name = (
    λ h.
        let (p, m, e) =
          any-Elem (text_eq (lower name)) (sensitive_headers ++ map lower headers)
            (sym (header_test (set_extra_sensitive_headers lower headers s) name) ∙ h) in
        subst (λ t. Elem t (sensitive_headers ++ map lower headers)) (sym ((text_eq_iff _ _).0 e))
          m,
    λ m.
        header_test (set_extra_sensitive_headers lower headers s) name
        ∙ any-of_Elem (text_eq (lower name)) m (text_eq_refl (lower name)),
  )

  -- A name stays sensitive inside a longer name, if lower-casing works part by part there.
  pub is_sensitive_key-around :
      (s : Settings) (a key b : Text)
      → lower (a ++ key ++ b) ≡ lower a ++ lower key ++ lower b
      → is_sensitive_key lower s key ≡ true
      → is_sensitive_key lower s (a ++ key ++ b) ≡ true
  is_sensitive_key-around s a key b e h =
      let (p, m, y) =
        any-Elem (contains (lower key)) (sensitive_key_substrings ++ s.extra_keys)
          (sym (key_test s key) ∙ h) in
      key_test s (a ++ key ++ b)
      ∙ any-of_Elem (contains (lower (a ++ key ++ b))) m (
          subst (λ t. contains t p ≡ true) (sym e)
            (contains-around (lower a) (lower key) (lower b) p y))
