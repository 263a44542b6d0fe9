-- ===== src/Masking/Headers.antt =====
-- `mask_headers` of tanu-core/src/masking.rs. `http::HeaderMap` is a multimap whose `insert` replaces
-- every value of a name; it enters by its operations and that behaviour.
use tanu.Prelude.{
  List, [], ◌∷◌, map, Text, text_eq, text_eq_iff, ◌≡◌, ◌∙◌, refl, ap, if◌then◌else◌, Bool-cases,
  inl, inr,
}
use tanu.Masking.{Settings, mask, is_sensitive_header}

abbrev pub Entry : Type 0
Entry = Text × Text

-- the values of a name among the entries, in order
abbrev pub values_of : Text → List Entry → List Text
values_of name [] = []
values_of name ((n, v) ∷ es) =
    let rest = values_of name es in if text_eq n name then v ∷ rest else rest

abbrev pub only_last : List Text → List Text
only_last [] = []
only_last (v ∷ []) = v ∷ []
only_last (v ∷ w ∷ vs) = only_last (w ∷ vs)

pub record HeaderMapApi : Type 1 where
  pub HeaderMap : Type 0
  pub new : HeaderMap
  pub iter : HeaderMap → List Entry
  pub insert : Text → Text → HeaderMap → HeaderMap
  pub iter-new : iter new ≡ []
  pub values-insert :
      (h : HeaderMap) (n v m : Text)
      → values_of m (iter (insert n v h)) ≡ (if text_eq n m then v ∷ [] else values_of m (iter h))

module _ (lower : Text → Text) (api : HeaderMapApi) (s : Settings) where
  open api use {HeaderMap, new, iter, insert, iter-new, values-insert}

  -- the body of the loop over `headers.iter()`
  mask_step : HeaderMap → Entry → HeaderMap
  mask_step masked (name, value) =
      insert name (if is_sensitive_header lower s name then mask else value) masked

  mask_loop : HeaderMap → List Entry → HeaderMap
  unfolding mask_step
  mask_loop masked [] = masked
  mask_loop masked (e ∷ es) = mask_loop (mask_step masked e) es

  unfoldable pub mask_headers : HeaderMap → HeaderMap
  unfolding mask_loop
  mask_headers headers = mask_loop new (iter headers)

  -- the last value of a list, masked if the name is sensitive
  abbrev last_masked : Text → List Text → List Text → List Text
  last_masked name acc [] = acc
  last_masked name acc (v ∷ vs) =
      last_masked name ((if is_sensitive_header lower s name then mask else v) ∷ []) vs

  step_values :
      (masked : HeaderMap) (n v : Text) (es : List Entry) (name : Text)
      → last_masked name (values_of name (iter (mask_step masked (n, v)))) (values_of name es)
        ≡ last_masked name (values_of name (iter masked)) (values_of name ((n, v) ∷ es))
  unfolding mask_step
  step_values masked n v es name = elim (Bool-cases (text_eq n name)) [
    | inl same ↦ rw (values-insert, same, (text_eq_iff n name).0 same)
    | inr other ↦ rw (values-insert, other)
  ]

  mask_loop-values :
      (masked : HeaderMap) (es : List Entry) (name : Text)
      → values_of name (iter (mask_loop masked es))
        ≡ last_masked name (values_of name (iter masked)) (values_of name es)
  unfolding mask_loop
  mask_loop-values masked [] name = refl
  mask_loop-values masked ((n, v) ∷ es) name =
      mask_loop-values (mask_step masked (n, v)) es name ∙ step_values masked n v es name

  abbrev shown_value : Text → Text → Text
  shown_value name v = if is_sensitive_header lower s name then mask else v

  last_masked-last :
      (name v : Text) (acc vs : List Text)
      → last_masked name acc (v ∷ vs) ≡ map (shown_value name) (only_last (v ∷ vs))
  last_masked-last name v acc [] = refl
  last_masked-last name v acc (w ∷ vs) = last_masked-last name w (shown_value name v ∷ []) vs

  last_masked-nil :
      (name : Text) (vs : List Text)
      → last_masked name [] vs ≡ map (shown_value name) (only_last vs)
  last_masked-nil name [] = refl
  last_masked-nil name (v ∷ vs) = last_masked-last name v [] vs

  -- Under each name the masked map has the last of the values that the map has, or the mask in its
  -- place if the name is sensitive; the earlier values of the name are not there.
  pub mask_headers-values :
      (headers : HeaderMap) (name : Text)
      → values_of name (iter (mask_headers headers))
        ≡ map
            (λ v. if is_sensitive_header lower s name then mask else v)
            (only_last (values_of name (iter headers)))
  unfolding mask_headers
  mask_headers-values headers name =
      mask_loop-values new (iter headers) name
      ∙ ap (λ es. last_masked name (values_of name es) (values_of name (iter headers))) iter-new
      ∙ last_masked-nil name (values_of name (iter headers))
