-- ===== src/Masking/Query.antt =====
-- What masking a query string, or a form body, does to its parameters.
use tanu.Prelude.{
  ℕ, true, false, List, [], ◌∷◌, ◌++◌, ap, sym, ◌∙◌, map, Option, none, some, ◌≡◌, ◌≢◌, refl, subst,
  arith, Text, All, Lacks, Bool-cases, split, split_once, join, split-join, split-Lacks,
  split-ne-nil, split_once-some, split_once-append, inl, inr,
}
use tanu.Masking.{
  Settings, mask, ampersand, equals, is_sensitive_key, mask_split, mask_pair, mask_query,
}

Lacks-append : (c : ℕ) (s t : Text) → Lacks c s → Lacks c t → Lacks c (s ++ t)
Lacks-append c [] t hs ht = ht
Lacks-append c (d ∷ s) t hs ht = (hs.0, Lacks-append c s t hs.1 ht)

Lacks-append_left : (c : ℕ) (s t : Text) → Lacks c (s ++ t) → Lacks c s
Lacks-append_left c [] t h = tt
Lacks-append_left c (d ∷ s) t h = (h.0, Lacks-append_left c s t h.1)

-- the parts of one list, each beside its counterpart in another of the same length
abbrev pub Pointwise : (Text → Text → Type 0) → List Text → List Text → Type 0
Pointwise R [] [] = Unit
Pointwise R [] (y ∷ ys) = ⊥
Pointwise R (x ∷ xs) [] = ⊥
Pointwise R (x ∷ xs) (y ∷ ys) = R x y × Pointwise R xs ys

module _ (lower : Text → Text) (s : Settings) where
  -- `p'` is what a log may show of the parameter `p`: the name and the mask if the text before the
  -- first `=` is a sensitive name, and else `p` itself.
  pub data Redacted (p p' : Text) : Type 0 where
    flag : split_once equals p ≡ none → p' ≡ p → Redacted p p'
    plain :
        (k v : Text)
        → split_once equals p ≡ some (k, v)
        → is_sensitive_key lower s k ≡ false
        → p' ≡ p
        → Redacted p p'
    hidden :
        (k v : Text)
        → split_once equals p ≡ some (k, v)
        → is_sensitive_key lower s k ≡ true
        → p' ≡ k ++ (equals ∷ mask)
        → Redacted p p'

  mask_split-Redacted :
      (p : Text) (o : Option (Text × Text))
      → split_once equals p ≡ o
      → Redacted p (mask_split lower s p o)
  unfolding mask_split
  mask_split-Redacted p none e = flag e refl
  mask_split-Redacted p (some (k, v)) e = elim (Bool-cases (is_sensitive_key lower s k)) [
    | inl y ↦ hidden k v e y (rw y)
    | inr n ↦ plain k v e n (rw n)
  ]

  mask_pair-Redacted : (p : Text) → Redacted p (mask_pair lower s p)
  unfolding mask_pair
  mask_pair-Redacted p = mask_split-Redacted p (split_once equals p) refl

  Redacted-Lacks : {p p' : Text} → Redacted p p' → Lacks ampersand p → Lacks ampersand p'
  Redacted-Lacks (flag e q) h = rw q h
  Redacted-Lacks (plain k v e n q) h = rw q h
  Redacted-Lacks {p} (hidden k v e y q) h = rw q (
      Lacks-append ampersand k _
        (Lacks-append_left ampersand k (equals ∷ v)
          (subst (Lacks ampersand) (split_once-some equals p k v e).0 h))
        (omega arith))

  map-Lacks :
      (ps : List Text)
      → All (Lacks ampersand) ps
      → All (Lacks ampersand) (map (mask_pair lower s) ps)
  map-Lacks [] h = tt
  map-Lacks (p ∷ ps) h = (Redacted-Lacks (mask_pair-Redacted p) h.0, map-Lacks ps h.1)

  split-join-map :
      (ps : List Text)
      → ps ≢ []
      → All (Lacks ampersand) ps
      → split ampersand (join ampersand (map (mask_pair lower s) ps)) ≡ map (mask_pair lower s) ps
  split-join-map [] ne h = absurd (ne refl)
  split-join-map (p ∷ ps) ne h = split-join ampersand _ _ (map-Lacks (p ∷ ps) h)

  -- A reader who takes the masked query apart finds the masked parameters, in order.
  pub split-mask_query :
      (q : Text)
      → split ampersand (mask_query lower s q) ≡ map (mask_pair lower s) (split ampersand q)
  unfolding mask_query
  split-mask_query q =
      split-join-map (split ampersand q) (split-ne-nil ampersand q) (split-Lacks ampersand q)

  map-Redacted : (ps : List Text) → Pointwise Redacted ps (map (mask_pair lower s) ps)
  map-Redacted [] = tt
  map-Redacted (p ∷ ps) = (mask_pair-Redacted p, map-Redacted ps)

  -- The parameters of the masked query are those of the query, as many and in the same order, each
  -- with its value replaced by the mask if its name is sensitive, and unchanged if not.
  pub mask_query-Redacted :
      (q : Text) → Pointwise Redacted (split ampersand q) (split ampersand (mask_query lower s q))
  mask_query-Redacted q =
      subst (Pointwise Redacted (split ampersand q)) (sym (split-mask_query q))
        (map-Redacted (split ampersand q))

  -- the value of a sensitive parameter is the mask
  abbrev pub IsHidden : Text → Type 0
  IsHidden p =
      (k v : Text)
      → split_once equals p ≡ some (k, v)
      → is_sensitive_key lower s k ≡ true
      → v ≡ mask

  Redacted-IsHidden : {p p' : Text} → Redacted p p' → IsHidden p'
  Redacted-IsHidden (flag e q) k v e' y = cc
  Redacted-IsHidden (plain k' v' e n q) k v e' y = ground arith
  Redacted-IsHidden {p} (hidden k' v' e y' q) k v e' y =
      ground (arith, split_once-append equals k' mask (split_once-some equals p k' v' e).1)

  Redacted-fixed : {p p' : Text} → Redacted p p' → mask_pair lower s p' ≡ p'
  unfolding mask_pair mask_split
  Redacted-fixed {p} (flag e q) = ground arith
  Redacted-fixed {p} (plain k v e n q) = ground arith
  Redacted-fixed {p} (hidden k v e y q) =
      ground (arith, split_once-append equals k mask (split_once-some equals p k v e).1)

  All-IsHidden : (ps ps' : List Text) → Pointwise Redacted ps ps' → All IsHidden ps'
  All-IsHidden [] [] h = tt
  All-IsHidden [] (p' ∷ ps') h = absurd h
  All-IsHidden (p ∷ ps) [] h = absurd h
  All-IsHidden (p ∷ ps) (p' ∷ ps') h = (Redacted-IsHidden h.0, All-IsHidden ps ps' h.1)

  -- Every parameter of the masked query whose name is sensitive has the mask for its value.
  pub mask_query-IsHidden : (q : Text) → All IsHidden (split ampersand (mask_query lower s q))
  mask_query-IsHidden q = All-IsHidden _ _ (mask_query-Redacted q)

  map-fixed : (ps ps' : List Text) → Pointwise Redacted ps ps' → map (mask_pair lower s) ps' ≡ ps'
  map-fixed [] [] h = refl
  map-fixed [] (p' ∷ ps') h = absurd h
  map-fixed (p ∷ ps) [] h = absurd h
  map-fixed (p ∷ ps) (p' ∷ ps') h = ground (arith, Redacted-fixed h.0, map-fixed ps ps' h.1)

  map-idempotent :
      (ps : List Text)
      → map (mask_pair lower s) (map (mask_pair lower s) ps) ≡ map (mask_pair lower s) ps
  map-idempotent ps = map-fixed ps _ (map-Redacted ps)

  -- Masking a masked query changes nothing.
  pub mask_query_idempotent :
      (q : Text) → mask_query lower s (mask_query lower s q) ≡ mask_query lower s q
  mask_query_idempotent q = outer ∙ inner
    where
      outer :
          mask_query lower s (mask_query lower s q)
          ≡ join ampersand (map (mask_pair lower s) (map (mask_pair lower s) (split ampersand q)))
      outer =
          unfold mask_query in
          ap (λ ps. join ampersand (map (mask_pair lower s) ps)) (split-mask_query q)

      inner :
          join ampersand (map (mask_pair lower s) (map (mask_pair lower s) (split ampersand q)))
          ≡ mask_query lower s q
      inner = unfold mask_query in ap (join ampersand) (map-idempotent (split ampersand q))
