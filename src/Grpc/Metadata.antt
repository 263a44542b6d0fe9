-- ===== src/Grpc/Metadata.antt =====
-- The metadata that tanu-core/src/grpc.rs logs.
use tanu.Prelude.{
  List, [], ◌∷◌, Option, none, some, Text, text_eq, ◌≡◌, ◌∙◌, refl, ap, if◌then◌else◌, Bool-cases,
  inl, inr,
}
use tanu.Masking.Headers.{Entry, values_of, only_last}
use tanu.Grpc.{GrpcApi, kept_entry, insert_kept, metadata_loop, extract_metadata_from_headers}

module _ (api : GrpcApi) where
  -- the entries that are logged, in their order
  abbrev pub kept : List Entry → List Entry
  unfolding kept_entry
  kept [] = []
  kept (e ∷ es) = elim (kept_entry api e) [ none ↦ kept es | some k ↦ k ∷ kept es ]

  -- the last of the values of a name among the entries, and else those before
  abbrev last_of : Text → List Text → List Entry → List Text
  last_of name acc [] = acc
  last_of name acc ((n, v) ∷ es) = last_of name (if text_eq n name then v ∷ [] else acc) es

  loop-values :
      (name : Text) (es : List Entry) (m : api.metadata.HeaderMap)
      → values_of name (api.metadata.iter (metadata_loop api es m))
        ≡ last_of name (values_of name (api.metadata.iter m)) (kept es)
  unfolding metadata_loop insert_kept
  loop-values name [] m = refl
  loop-values name (e ∷ es) m = after (kept_entry api e) (loop-values name es)
    where
      after :
          (k : Option Entry)
          → ((m : api.metadata.HeaderMap)
              → values_of name (api.metadata.iter (metadata_loop api es m))
                ≡ last_of name (values_of name (api.metadata.iter m)) (kept es))
          → values_of name (api.metadata.iter (metadata_loop api es (insert_kept api k m)))
            ≡ last_of name
                (values_of name (api.metadata.iter m))
                (elim k [ none ↦ kept es | some j ↦ j ∷ kept es ])
      after none rest = rest m
      after (some (n, v)) rest =
          rest (api.metadata.insert n v m)
          ∙ ap (λ l. last_of name l (kept es)) (api.metadata.values-insert m n v name)

  -- the last of some values, and `acc` where there is none
  abbrev or_last : List Text → List Text → List Text
  or_last acc [] = acc
  or_last acc (v ∷ vs) = only_last (v ∷ vs)

  or_last-only_last : (v : Text) (vs : List Text) → or_last (v ∷ []) vs ≡ only_last (v ∷ vs)
  or_last-only_last v [] = refl
  or_last-only_last v (w ∷ vs) = refl

  last_of-values :
      (name : Text) (acc : List Text) (es : List Entry)
      → last_of name acc es ≡ or_last acc (values_of name es)
  last_of-values name acc [] = refl
  last_of-values name acc ((n, v) ∷ es) = elim (Bool-cases (text_eq n name)) [
    | inl y ↦ rw y (last_of-values name (v ∷ []) es ∙ or_last-only_last v (values_of name es))
    | inr e ↦ rw e (last_of-values name acc es)
  ]

  -- Under each name the metadata of a log has the last of the values that the headers give it, of those
  -- that are logged: no header of binary data, none whose name begins with a colon, and none whose name
  -- or value does not parse. Earlier values of a name are not there.
  pub extract_metadata-values :
      (headers : api.headers.HeaderMap) (name : Text)
      → values_of name (api.metadata.iter (extract_metadata_from_headers api headers))
        ≡ only_last (values_of name (kept (api.headers.iter headers)))
  unfolding extract_metadata_from_headers
  extract_metadata-values headers name =
      loop-values name (api.headers.iter headers) api.metadata.new
      ∙ ap (λ l. last_of name (values_of name l) (kept (api.headers.iter headers)))
          api.metadata.iter-new
      ∙ last_of-values name [] (kept (api.headers.iter headers))
      ∙ from_none (values_of name (kept (api.headers.iter headers)))
    where
      from_none : (vs : List Text) → or_last [] vs ≡ only_last vs
      from_none [] = refl
      from_none (v ∷ vs) = refl
