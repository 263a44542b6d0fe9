-- ===== src/Masking/Url.antt =====
-- `mask_url` of tanu-core/src/masking.rs. `url::Url` enters by its query: reading it, and setting it.
use tanu.Prelude.{Text, ◌≡◌, refl, ap, ◌∙◌, Option, none, some}
use tanu.Masking.{Settings, mask_query}
use tanu.Masking.Query.{mask_query_idempotent}

pub record UrlApi : Type 1 where
  pub Url : Type 0
  pub query : Url → Option Text
  pub set_query : Option Text → Url → Url
  -- setting the query twice is setting it to the second
  pub set_query-set_query :
      (p q : Option Text) (u : Url) → set_query q (set_query p u) ≡ set_query q u

module _ (lower : Text → Text) (api : UrlApi) (s : Settings) where
  open api use {Url, query, set_query, set_query-set_query}

  mask_found : Url → Option Text → Url
  mask_found url none = url
  mask_found url (some q) = set_query (some (mask_query lower s q)) url

  unfoldable pub mask_url : Url → Url
  unfolding mask_found
  mask_url url = mask_found url (query url)

  mask_found_idempotent :
      (url : Url) (o : Option Text)
      → query url ≡ o
      → ((q : Text)
          → query url ≡ some q
          → query (set_query (some (mask_query lower s q)) url) ≡ some (mask_query lower s q))
      → mask_url (mask_found url o) ≡ mask_found url o
  unfolding mask_url
  mask_found_idempotent url none e kept = rw e
  mask_found_idempotent url (some q) e kept =
      let masked = mask_query lower s q in
      ap (mask_found (set_query (some masked) url)) (kept q e)
      ∙ set_query-set_query (some masked) (some (mask_query lower s masked)) url
      ∙ ap (λ t. set_query (some t) url) (mask_query_idempotent lower s q)

  -- Masking a masked URL changes nothing, where the URL takes the masked query as it is written.
  pub mask_url_idempotent :
      (url : Url)
      → ((q : Text)
          → query url ≡ some q
          → query (set_query (some (mask_query lower s q)) url) ≡ some (mask_query lower s q))
      → mask_url (mask_url url) ≡ mask_url url
  unfolding mask_url
  mask_url_idempotent url kept = mask_found_idempotent url (query url) refl kept
