-- ===== src/Http/Send/Cookies.antt =====
-- The cookies that `send` of tanu-core/src/http.rs keeps.
use tanu.Prelude.{true, false, List, ◌++◌, some, Text, ok, lookup, ◌≡◌, ◌⊎◌, is_empty}
use tanu.Http.{HttpApi, Request, Response, Answer, World, is_redirection}
use tanu.Http.Redirects.{Outcome, domain_of}

module _ (api : HttpApi) where
  -- what the store has under the domain of a response: its cookies alone, or, after a redirect that
  -- does not say where to, these after those that were there
  abbrev pub Kept : Response api → World api → Type 0
  Kept r v =
      (lookup (domain_of api r.url) v.cookie_store ≡ some r.cookies)
      ⊎ ((is_redirection r.status ≡ true)
          × ((before : List api.Cookie) × (lookup (domain_of api r.url) v.cookie_store
                ≡ some (before ++ r.cookies))))

module _ (api : HttpApi) (lower : Text → Text) (answer : List (Request api) → Answer api) where
  abbrev Keeps : Outcome api → Type 0
  Keeps o = (r : Response api) → o.0 ≡ ok r → is_empty r.cookies ≡ false → Kept api r o.1
