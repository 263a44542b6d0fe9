-- ===== src/Http/Logging.antt =====
-- What `send` of tanu-core/src/http.rs logs of a call: the request and the response, masked or not, and
-- the publishing of both.
use tanu.Prelude.{
  [], Option, none, some, Text, codes, Result, ok, err, if◌then◌else◌, ◌≡◌, refl, arith,
}
use tanu.Masking.{Settings, should_mask_sensitive}
use tanu.Masking.Headers.{mask_headers}
use tanu.Masking.Url.{mask_url}
use tanu.Masking.Body.{mask_body}
use tanu.Runner.Startup.{publish}
use tanu.Http.{
  HttpApi, HeaderMap, Url, Bytes, get_text, Method, Error, unexpected, LogRequest, LogResponse, Log,
  Response, World,
}

module _ (api : HttpApi) (lower : Text → Text) where
  -- what a log shows of a URL, of headers and of a body
  unfoldable pub shown_url : Settings → Url api → Url api
  unfolding mask_url should_mask_sensitive
  shown_url s url = if should_mask_sensitive s then mask_url lower api.urls s url else url

  unfoldable pub shown_headers : Settings → HeaderMap api → HeaderMap api
  unfolding mask_headers should_mask_sensitive
  shown_headers s headers =
      if should_mask_sensitive s then mask_headers lower api.maps s headers else headers

  shown_body : Settings → Bytes api → Option Text → Text
  unfolding mask_body should_mask_sensitive
  shown_body s body content_type =
      if should_mask_sensitive s
      then mask_body lower api.codec s body content_type
      else api.codec.from_utf8_lossy body

  unfoldable pub log_request :
      Settings → Url api → Method → HeaderMap api → Option (Bytes api) → LogRequest api
  unfolding shown_url shown_headers shown_body
  log_request s url method headers body = record {
    url = shown_url s url;
    method = method;
    headers = shown_headers s headers;
    body = elim body [
      | none ↦ none
      | some b ↦ some (shown_body s b (get_text api (codes "content-type") headers))
    ];
  }

  -- The text of a response is logged as it is where nothing is masked.
  shown_text : Settings → Text → Option Text → Text
  unfolding mask_body should_mask_sensitive
  shown_text s text content_type =
      if should_mask_sensitive s
      then mask_body lower api.codec s (api.codec.as_bytes text) content_type
      else text

  unfoldable pub log_response : Settings → Response api → LogResponse api
  unfolding shown_headers shown_text
  log_response s response = record {
    headers = shown_headers s response.headers;
    body = shown_text s response.text (get_text api (codes "content-type") response.headers);
    status = response.status;
  }

module _ (api : HttpApi) where
  -- `LogResponse::default()`
  abbrev pub no_response : LogResponse api
  no_response = record { headers = api.maps.new; body = []; status = 200 }

  -- the `?` on what `publish` returns, and then the result
  delivered :
      {A : Type 0}
      → Result Text (Unit {0})
      → Result (Error api.E) A
      → World api
      → Result (Error api.E) A × World api
  delivered (err e) result w = (err (unexpected e), w)
  delivered (ok u) result w = (result, w)

  -- `publish(Call(Http(log)))?`
  unfoldable pub report :
      {A : Type 0}
      → Log api
      → Result (Error api.E) A
      → World api
      → Result (Error api.E) A × World api
  unfolding publish delivered
  report log result w =
      let (published, channel) = publish log w.channel in
      delivered published result (record w { channel = channel })

  delivered-world :
      {A : Type 0} (p : Result Text (Unit {0})) (result : Result (Error api.E) A) (w : World api)
      → (delivered p result w).1 ≡ w
  unfolding delivered
  delivered-world (err e) result w = refl
  delivered-world (ok u) result w = refl

  pub report-world :
      {A : Type 0} (log : Log api) (result : Result (Error api.E) A) (w : World api)
      → (report log result w).1 ≡ record w { channel = (publish log w.channel).1 }
  unfolding report
  report-world log result w = delivered-world (publish log w.channel).0 result _

  delivered-ok :
      {A : Type 0} (p : Result Text (Unit {0})) (result : Result (Error api.E) A) (w : World api)
      (a : A)
      → (delivered p result w).0 ≡ ok a
      → result ≡ ok a
  unfolding delivered
  delivered-ok (err e) result w a h = ground arith
  delivered-ok (ok u) result w a h = h

  -- A report that returns a value was given it.
  pub report-ok :
      {A : Type 0} (log : Log api) (result : Result (Error api.E) A) (w : World api) (a : A)
      → (report log result w).0 ≡ ok a
      → result ≡ ok a
  unfolding report
  report-ok log result w a h = delivered-ok (publish log w.channel).0 result _ a h
