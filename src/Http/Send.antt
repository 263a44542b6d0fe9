-- ===== src/Http/Send.antt =====
-- `RequestBuilder::send` of tanu-core/src/http.rs, on top of its redirects.
pub mod Exits
pub mod Wire
pub mod Requests
pub mod Reports
pub mod Hidden
pub mod Cookies
use tanu.Prelude.{
  ℕ, zero, suc, ◌==◌, Bool, true, false, not, ◌&&◌, ◌||◌, List, [], ◌∷◌, ◌++◌, map, Option, none,
  some, Text, codes, contains, starts_with, join, is_empty, Map, lookup, insert, Result, ok, err,
  ltb, if◌then◌else◌, unwrap_or,
}
use tanu.Masking.{ampersand, equals}
use tanu.Masking.Headers.{Entry}
use tanu.Http.{
  HttpApi, HeaderMap, Url, Bytes, get_text, Method, is_get, is_post, is_redirection, Error,
  http_legacy, uri, timeout, unexpected, LogRequest, LogResponse, Log, Response, Request, Reply,
  Answer, World,
}
use tanu.Http.Body.{response_from, set_cookies}
use tanu.Http.Logging.{log_request, log_response, no_response, report}
use tanu.Http.Builder.{RequestBuilder}
use tanu.Http.Redirects.{
  compose_url, cookie_text, domain_of, cookie_entries, request_headers, store_cookies,
  conclude_with, conclude, conclude_without_location, keep_cookies, next_url, next_method,
  redirect_body, redirect_request, put_on_wire, redirect_answered, redirect_to, redirect_url,
  redirect_location, redirect_turn, follow_redirects, Outcome,
}

module _ (api : HttpApi) (lower : Text → Text) (answer : List (Request api) → Answer api) where
  -- `tokio::time::timeout`, if there is one
  awaited : Option ℕ → Answer api → Result (Error api.E) (Result api.E (Reply api))
  awaited none a = ok a.outcome
  awaited (some t) a = if ltb t a.duration then err (timeout t) else ok a.outcome

  -- whether the first reply is a redirect
  after_reply :
      RequestBuilder api → Url api → LogRequest api → Reply api → World api → Bool → Outcome api
  unfolding follow_redirects conclude
  after_reply b url request res w true =
      follow_redirects api lower answer 10 b.headers b.body request b.method res url w
  after_reply b url request res w false = conclude api lower res url request w

  -- what follows the first answer
  after_answer :
      RequestBuilder api
      → Url api
      → LogRequest api
      → Result (Error api.E) (Result api.E (Reply api))
      → World api
      → Outcome api
  unfolding after_reply report
  after_answer b url request (err e) w = (err e, w)
  after_answer b url request (ok (err e)) w =
      report api (record { request = request; response = no_response api }) (err (http_legacy e)) w
  after_answer b url request (ok (ok res)) w =
      after_reply b url request res w (is_redirection res.status)

  -- the first request
  unfoldable pub first_request : RequestBuilder api → Url api → Text → World api → Request api
  unfolding request_headers
  first_request b url target w = record {
    method = b.method;
    uri = target;
    headers = request_headers api b.headers url w;
    body = unwrap_or b.body api.empty_bytes;
  }

  send_to : RequestBuilder api → Url api → Text → World api → Outcome api
  unfolding after_answer awaited log_request first_request
  send_to b url target w =
      let w₁ = put_on_wire api lower answer (first_request b url target w) w in
      after_answer b url (log_request api lower w.settings url b.method b.headers b.body)
        (awaited b.timeout (answer w₁.wire)) w₁

  parsed : RequestBuilder api → Url api → World api → Result api.E Text → Outcome api
  unfolding send_to
  parsed b url w (err e) = (err (uri e), w)
  parsed b url w (ok target) = send_to b url target w

  send_url : RequestBuilder api → Text → World api → Result Text (Url api) → Outcome api
  unfolding parsed
  send_url b url w (err e) = (err (unexpected (codes "Invalid URL: " ++ e)), w)
  send_url b url w (ok parsed_url) = parsed b parsed_url w (api.parse_uri url)

  unfoldable pub send : RequestBuilder api → World api → Outcome api
  unfolding compose_url send_url
  send b w = let url = compose_url b.url b.query_params in send_url b url w (api.parse_url url)
