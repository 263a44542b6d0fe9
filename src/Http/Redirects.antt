-- ===== src/Http/Redirects.antt =====
-- The requests of redirects, the cookies and the last response, in `send` and `follow_redirects` of
-- tanu-core/src/http.rs. `answer` is the network: what it answers to the last of the requests that were
-- put on the wire. `http`'s builder of a request takes parts that were parsed before, and does not fail.
use tanu.Prelude.{
  ℕ, zero, suc, ◌==◌, Bool, true, false, ◌&&◌, ◌||◌, List, [], ◌∷◌, ◌++◌, map, Option, none, some,
  Text, codes, contains, starts_with, join, is_empty, lookup, insert, Result, ok, err,
  if◌then◌else◌, unwrap_or,
}
use tanu.Masking.{ampersand, equals}
use tanu.Masking.Headers.{Entry}
use tanu.Http.{
  HttpApi, HeaderMap, Url, Bytes, get_text, Method, is_get, is_post, is_redirection, Error,
  http_legacy, uri, unexpected, LogRequest, Response, Request, Reply, Answer, World,
}
use tanu.Http.Body.{response_from, set_cookies}
use tanu.Http.Logging.{log_response, report}

-- the url with the query parameters
unfoldable pub compose_url : Text → List (Text × Text) → Text
unfolding contains join
compose_url url [] = url
compose_url url (p ∷ ps) =
    let query_string = join ampersand (map (λ kv. kv.0 ++ (equals ∷ kv.1)) (p ∷ ps)) in
    if contains url (codes "?")
    then url ++ (ampersand ∷ query_string)
    else url ++ (codes "?" ++ query_string)

-- what a call returns, and the world after it
abbrev pub Outcome : HttpApi → Type 0
Outcome api = Result (Error api.E) (Response api) × World api

module _ (api : HttpApi) where
  -- `name=value`, joined by `; `
  pub cookie_text : List api.Cookie → Text
  cookie_text [] = []
  cookie_text (c ∷ []) = api.cookie_name c ++ (equals ∷ api.cookie_value c)
  cookie_text (c ∷ d ∷ cs) =
      (api.cookie_name c ++ (equals ∷ api.cookie_value c)) ++ (codes "; " ++ cookie_text (d ∷ cs))

  -- the domain of a URL: its host, or the empty text
  abbrev pub domain_of : Url api → Text
  domain_of url = unwrap_or (api.host_str url) (codes "")

  -- the header with the cookies of a domain, if there are any and they make a valid header
  pub cookie_entries : Option (List api.Cookie) → List Entry
  unfolding cookie_text
  cookie_entries none = []
  cookie_entries (some []) = []
  cookie_entries (some (c ∷ cs)) = elim (api.header_value (cookie_text (c ∷ cs))) [
    | none ↦ []
    | some v ↦ (codes "cookie", v) ∷ []
  ]

  unfoldable pub request_headers : HeaderMap api → Url api → World api → List Entry
  unfolding cookie_entries lookup
  request_headers headers url w =
      api.maps.iter headers ++ cookie_entries (lookup (domain_of url) w.cookie_store)

  module _ (lower : Text → Text) where
    -- `cookie_store.insert(domain, cookies)`, if there are any
    unfoldable pub store_cookies : Response api → World api → World api
    unfolding insert
    store_cookies response w = if is_empty response.cookies then w else record w {
      cookie_store = insert (domain_of response.url) response.cookies w.cookie_store;
    }

    -- a response that is the last: read, its cookies stored or not, logged and returned
    unfoldable pub conclude_with :
        (Response api → World api → World api)
        → LogRequest api
        → Result (Error api.E) (Response api)
        → World api
        → Outcome api
    unfolding report log_response
    conclude_with store request (err e) w = (err e, w)
    conclude_with store request (ok response) w =
        report api
          (record { request = request; response = log_response api lower w.settings response })
          (ok response) (store response w)

    unfoldable pub conclude : Reply api → Url api → LogRequest api → World api → Outcome api
    unfolding conclude_with store_cookies response_from
    conclude res url request w = conclude_with store_cookies request (response_from api res url) w

    -- a redirect that does not say where to
    unfoldable pub conclude_without_location :
        Reply api → Url api → LogRequest api → World api → Outcome api
    unfolding conclude_with response_from
    conclude_without_location res url request w =
        conclude_with (λ r w. w) request (response_from api res url) w

    -- the cookies of a redirect, added to those of its domain
    unfoldable pub keep_cookies : Reply api → Url api → World api → World api
    unfolding set_cookies insert lookup
    keep_cookies res url w =
        let cookies = set_cookies api res.headers in
        if is_empty cookies then w else record w {
          cookie_store =
              insert (domain_of url)
                (unwrap_or (lookup (domain_of url) w.cookie_store) [] ++ cookies) w.cookie_store;
        }

    pub next_url : Text → Url api → Result Text (Url api)
    unfolding starts_with
    next_url location url =
        if starts_with location (codes "http")
        then api.parse_url location
        else api.join_url url location

    unfoldable pub next_method : ℕ → Method → Method
    next_method status method =
        if (status == 303) || (is_post method && ((status == 301) || (status == 302)))
        then Method.get
        else method

    pub redirect_body : Method → Option (Bytes api) → Bytes api
    redirect_body method body =
        if is_get method then api.empty_bytes else unwrap_or body api.empty_bytes

    unfoldable pub redirect_request :
        HeaderMap api → Method → Option (Bytes api) → Url api → Text → World api → Request api
    unfolding redirect_body request_headers
    redirect_request headers method body url target w = record {
      method = method;
      uri = target;
      headers = request_headers headers url w;
      body = redirect_body method body;
    }

    module _ (answer : List (Request api) → Answer api) where
      -- `client.inner.request(req)`
      abbrev pub put_on_wire : Request api → World api → World api
      put_on_wire req w = record w { wire = w.wire ++ (req ∷ []) }

      -- The parts of one turn of the loop, from the last to the first; `next` is the rest of the loop.
      module _ (next : Method → Reply api → Url api → World api → Outcome api)
          (headers : HeaderMap api) (body : Option (Bytes api)) (request : LogRequest api) where
        unfoldable pub redirect_answered :
            Method → Url api → World api → Result api.E (Reply api) → Outcome api
        redirect_answered method url w (err e) = (err (http_legacy e), w)
        redirect_answered method url w (ok res) = next method res url w

        unfoldable pub redirect_to : Method → Url api → World api → Result api.E Text → Outcome api
        unfolding redirect_answered redirect_request
        redirect_to method url w (err e) = (err (uri e), w)
        redirect_to method url w (ok target) =
            let w' = put_on_wire (redirect_request headers method body url target w) w in
            redirect_answered method url w' (answer w'.wire).outcome

        unfoldable pub redirect_url : Method → World api → Result Text (Url api) → Outcome api
        unfolding redirect_to
        redirect_url method w (err e) = (err (unexpected (codes "Invalid redirect URL: " ++ e)), w)
        redirect_url method w (ok url) = redirect_to method url w (api.parse_uri (api.url_text url))

        unfoldable pub redirect_location :
            Method → Reply api → Url api → World api → Option Text → Outcome api
        unfolding redirect_url next_url next_method conclude_without_location
        redirect_location method res url w none = conclude_without_location res url request w
        redirect_location method res url w (some location) =
            redirect_url (next_method res.status method) w (next_url location url)

        unfoldable pub redirect_turn : Method → Reply api → Url api → World api → Bool → Outcome api
        unfolding redirect_location keep_cookies conclude
        redirect_turn method res url w false = conclude res url request w
        redirect_turn method res url w true =
            redirect_location method res url (keep_cookies res url w)
              (get_text api (codes "location") res.headers)

      -- The loop; the number is `max_redirects - redirect_count`.
      unfoldable pub follow_redirects :
          ℕ
          → HeaderMap api
          → Option (Bytes api)
          → LogRequest api
          → Method
          → Reply api
          → Url api
          → World api
          → Outcome api
      unfolding conclude redirect_turn
      follow_redirects zero headers body request method res url w = conclude res url request w
      follow_redirects (suc left) headers body request method res url w =
          redirect_turn (follow_redirects left headers body request) headers body request method res
            url w (is_redirection res.status)
