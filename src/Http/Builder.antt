-- ===== src/Http/Builder.antt =====
-- `Client`'s methods and `RequestBuilder` of tanu-core/src/http.rs. What `serde` makes of a value is an
-- argument, `none` where it fails.
use tanu.Prelude.{ℕ, List, [], ◌∷◌, ◌++◌, Option, none, some, Text, codes, split, split_once}
use tanu.Masking.{ampersand, equals}
use tanu.Http.{Method, HttpApi, HeaderMap, Bytes}

pub record RequestBuilder (api : HttpApi) : Type 0 where
  pub method : Method
  pub url : Text
  pub headers : HeaderMap api
  pub body : Option (Bytes api)
  pub query_params : List (Text × Text)
  pub timeout : Option ℕ

-- the pairs of a query string that have a `=`
pairs : List Text → List (Text × Text)
pairs [] = []
pairs (p ∷ ps) = elim (split_once equals p) [ none ↦ pairs ps | some kv ↦ kv ∷ pairs ps ]

module _ (api : HttpApi) where
  -- `RequestBuilder::new`
  unfoldable pub new_builder : Method → Text → RequestBuilder api
  new_builder method url = record {
    method = method;
    url = url;
    headers = api.maps.new;
    body = none;
    query_params = [];
    timeout = none;
  }

  -- the methods of `Client`
  unfoldable pub get : Text → RequestBuilder api
  unfolding new_builder
  get url = new_builder Method.get url

  unfoldable pub post : Text → RequestBuilder api
  unfolding new_builder
  post url = new_builder Method.post url

  unfoldable pub put : Text → RequestBuilder api
  unfolding new_builder
  put url = new_builder Method.put url

  unfoldable pub patch : Text → RequestBuilder api
  unfolding new_builder
  patch url = new_builder Method.patch url

  unfoldable pub delete : Text → RequestBuilder api
  unfolding new_builder
  delete url = new_builder Method.delete url

  unfoldable pub head : Text → RequestBuilder api
  unfolding new_builder
  head url = new_builder Method.head url

  unfoldable pub options : Text → RequestBuilder api
  unfolding new_builder
  options url = new_builder Method.options url

  -- an entry whose name and value are valid
  insert_valid : Option Text → Option Text → RequestBuilder api → RequestBuilder api
  insert_valid none v b = b
  insert_valid (some name) none b = b
  insert_valid (some name) (some value) b = record b {
    headers = api.maps.insert name value b.headers;
  }

  unfoldable pub header : Text → Text → RequestBuilder api → RequestBuilder api
  unfolding insert_valid
  header key value b = insert_valid (api.header_name key) (api.header_value value) b

  unfoldable pub with_headers : HeaderMap api → RequestBuilder api → RequestBuilder api
  with_headers headers b = record b { headers = api.extend b.headers headers }

  -- `header::AUTHORIZATION` with a value, if that is valid
  authorize : Text → RequestBuilder api → RequestBuilder api
  unfolding insert_valid
  authorize auth_header b =
      insert_valid (some (codes "authorization")) (api.header_value auth_header) b

  abbrev credentials : Text → Option Text → Text
  credentials username none = username
  credentials username (some p) = username ++ (codes ":" ++ p)

  unfoldable pub basic_auth : Text → Option Text → RequestBuilder api → RequestBuilder api
  unfolding authorize
  basic_auth username password b =
      authorize (codes "Basic " ++ api.base64 (credentials username password)) b

  unfoldable pub bearer_auth : Text → RequestBuilder api → RequestBuilder api
  unfolding authorize
  bearer_auth token b = authorize (codes "Bearer " ++ token) b

  unfoldable pub body : Bytes api → RequestBuilder api → RequestBuilder api
  body bytes b = record b { body = some bytes }

  -- `serde_urlencoded::to_string(query)`
  unfoldable pub query : Option Text → RequestBuilder api → RequestBuilder api
  unfolding pairs
  query none b = b
  query (some params) b = record b {
    query_params = b.query_params ++ pairs (split ampersand params);
  }

  -- a body with its content type, if it could be written
  typed_body : Text → Option Text → RequestBuilder api → RequestBuilder api
  typed_body content_type none b = b
  typed_body content_type (some text) b = record b {
    body = some (api.codec.as_bytes text);
    headers = api.maps.insert (codes "content-type") content_type b.headers;
  }

  unfoldable pub form : Option Text → RequestBuilder api → RequestBuilder api
  unfolding typed_body
  form written b = typed_body (codes "application/x-www-form-urlencoded") written b

  unfoldable pub json : Option Text → RequestBuilder api → RequestBuilder api
  unfolding typed_body
  json written b = typed_body (codes "application/json") written b

  unfoldable pub with_timeout : ℕ → RequestBuilder api → RequestBuilder api
  with_timeout timeout b = record b { timeout = some timeout }

  unfoldable pub try_clone : RequestBuilder api → Option (RequestBuilder api)
  try_clone b = some b
