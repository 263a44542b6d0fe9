-- ===== src/Http.antt =====
-- tanu-core/src/http.rs: the data of the HTTP client. What it takes from http, url, hyper, cookie,
-- base64 and the decoders is the parameter `HttpApi`, in which `E` is the type of their errors. Instants
-- and the durations of logs are left out.
pub mod Builder
pub mod Body
pub mod Logging
pub mod Redirects
pub mod Send
pub mod Graphql
use tanu.Prelude.{
  ℕ, Bool, true, false, List, [], ◌∷◌, Option, none, some, Text, Result, Map, ltb, ◌&&◌, leb,
}
use tanu.Masking.{Settings}
use tanu.Masking.Headers.{Entry, HeaderMapApi, values_of}
use tanu.Masking.Url.{UrlApi}
use tanu.Masking.Body.{Codec}

abbrev first : {A : Type 0} → List A → Option A
first [] = none
first (x ∷ xs) = some x

-- `opt.and_then(f)`
abbrev pub and_then : {A B : Type 0} → Option A → (A → Option B) → Option B
and_then none f = none
and_then (some a) f = f a

-- `http::Method`, by the methods that the code names
pub data Method : Type 0 where
  get : Method
  post : Method
  put : Method
  patch : Method
  delete : Method
  head : Method
  options : Method
  other : Text → Method

abbrev pub is_get : Method → Bool
is_get Method.get = true
is_get _ = false

abbrev pub is_post : Method → Bool
is_post Method.get = false
is_post Method.post = true
is_post _ = false

-- `StatusCode::is_redirection`
abbrev pub is_redirection : ℕ → Bool
is_redirection status = leb 300 status && ltb status 400

pub data Error (E : Type 0) : Type 0 where
  http : E → Error E
  http_legacy : E → Error E
  uri : E → Error E
  header : E → Error E
  tls : E → Error E
  timeout : ℕ → Error E
  deserialize : E → Error E
  unexpected : Text → Error E

-- What the code takes from its libraries.
pub record HttpApi : Type 1 where
  pub maps : HeaderMapApi
  pub urls : UrlApi
  pub codec : Codec
  pub E : Type 0
  pub Cookie : Type 0
  pub header_name : Text → Option Text  -- `HeaderName::try_from`
  pub header_value : Text → Option Text  -- `HeaderValue::try_from`, `from_str`
  pub to_str : Text → Option Text  -- `HeaderValue::to_str`
  pub extend : maps.HeaderMap → maps.HeaderMap → maps.HeaderMap  -- the first by the second
  pub parse_url : Text → Result Text urls.Url
  pub join_url : urls.Url → Text → Result Text urls.Url
  pub url_text : urls.Url → Text
  pub host_str : urls.Url → Option Text
  pub parse_uri : Text → Result E Text
  pub parse_cookie : Text → Option Cookie
  pub cookie_name : Cookie → Text
  pub cookie_value : Cookie → Text
  pub base64 : Text → Text
  pub empty_bytes : codec.Bytes
  -- the decoders, `none` where they fail
  pub gzip : codec.Bytes → Option codec.Bytes
  pub zlib : codec.Bytes → Option codec.Bytes
  pub deflate : codec.Bytes → Option codec.Bytes
  pub brotli : codec.Bytes → Option codec.Bytes
  pub zstd : codec.Bytes → Option codec.Bytes

module _ (api : HttpApi) where
  abbrev pub HeaderMap : Type 0
  HeaderMap = api.maps.HeaderMap

  abbrev pub Url : Type 0
  Url = api.urls.Url

  abbrev pub Bytes : Type 0
  Bytes = api.codec.Bytes

  -- the values of a name, in their order; the first of them is what `get` returns
  abbrev pub get_all : Text → HeaderMap → List Text
  get_all name headers = values_of name (api.maps.iter headers)

  abbrev pub get_header : Text → HeaderMap → Option Text
  get_header name headers = first (get_all name headers)

  -- `headers.get(name).and_then(|v| v.to_str().ok())`
  abbrev pub get_text : Text → HeaderMap → Option Text
  get_text name headers = and_then (get_header name headers) api.to_str

pub record LogRequest (api : HttpApi) : Type 0 where
  pub url : Url api
  pub method : Method
  pub headers : HeaderMap api
  pub body : Option Text

pub record LogResponse (api : HttpApi) : Type 0 where
  pub headers : HeaderMap api
  pub body : Text
  pub status : ℕ

pub record Log (api : HttpApi) : Type 0 where
  pub request : LogRequest api
  pub response : LogResponse api

pub record Response (api : HttpApi) : Type 0 where
  pub headers : HeaderMap api
  pub status : ℕ
  pub text : Text
  pub url : Url api
  pub cookies : List api.Cookie

-- what is put on the wire, and what comes back
pub record Request (api : HttpApi) : Type 0 where
  pub method : Method
  pub uri : Text
  pub headers : List Entry
  pub body : Bytes api

pub record Reply (api : HttpApi) : Type 0 where
  pub status : ℕ
  pub headers : HeaderMap api
  pub body : Result api.E (Bytes api)  -- what `collect` gives

pub record Answer (api : HttpApi) : Type 0 where
  pub duration : ℕ
  pub outcome : Result api.E (Reply api)

-- What a call reads and changes: the settings of masking, the cookies of each domain, what was put on
-- the wire, and the runner's channel with the logs that were published.
pub record World (api : HttpApi) : Type 0 where
  pub settings : Settings
  pub cookie_store : Map (List api.Cookie)
  pub wire : List (Request api)
  pub channel : Option (List (Log api))
