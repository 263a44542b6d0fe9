-- ===== src/Http/Graphql.antt =====
-- `GraphqlRequestBuilder` of tanu-core/src/graphql.rs, on top of the HTTP client. What `serde` makes of
-- a request is the object that its attributes say: a field that is `None` is left out.
use tanu.Prelude.{
  ◌++◌, ◌≤◌, List, [], ◌∷◌, ℕ, Option, none, some, Text, codes, ◌≡◌, ◌∙◌, unwrap_or, refl, subst,
  ap, length, ok,
}
use tanu.Masking.Json.{Value, Fields, string, object, field}
use tanu.Http.{HttpApi, Url, Method, Request, Answer, World}
use tanu.Http.Builder.{
  RequestBuilder, new_builder, header, basic_auth, bearer_auth, with_timeout, json,
}
use tanu.Http.Send.{first_request, send}
use tanu.Http.Redirects.{Outcome, compose_url}
use tanu.Http.Send.Wire.{Chain, Carries}
use tanu.Http.Send.Requests.{FromFirst, send-Sent}

pub record GraphqlRequest (Num : Type 0) : Type 0 where
  pub query : Text
  pub variables : Option (Value Num)
  pub operation_name : Option Text

-- what `Q::build_query(variables)` gives: the query, the name of the operation, and the variables as
-- JSON, `none` where they cannot be written
pub record QueryBody (Num : Type 0) : Type 0 where
  pub query : Text
  pub operation_name : Text
  pub variables : Option (Value Num)

pub record GraphqlRequestBuilder (api : HttpApi) : Type 0 where
  pub inner : RequestBuilder api
  pub query : Text
  pub variables : Option (Value api.codec.Num)
  pub operation_name : Option Text

abbrev optional : {Num : Type 0} → Text → Option (Value Num) → Fields Num → Fields Num
optional name none fs = fs
optional name (some v) fs = field name v fs

abbrev option_text : {Num : Type 0} → Option Text → Option (Value Num)
option_text none = none
option_text (some t) = some (string t)

-- `Serialize` for `GraphqlRequest`
unfoldable pub request_json : {Num : Type 0} → GraphqlRequest Num → Value Num
request_json r = object (
    field (codes "query") (string r.query) (
      optional (codes "variables") r.variables
        (optional (codes "operationName") (option_text r.operation_name) Fields.end)))

-- the JSON of a query, its variables and its operation's name
pub data Described {Num : Type 0}
    : Text → Option (Value Num) → Option Text → Value Num → Type 0 where
  plain : {q : Text} → Described q none none (object (field (codes "query") (string q) Fields.end))
  with_variables :
      {q : Text} {v : Value Num}
      → Described q
          (some v)
          none
          (object (field (codes "query") (string q) (field (codes "variables") v Fields.end)))
  with_name :
      {q n : Text}
      → Described q none (some n) (
          object (
            field (codes "query") (string q) (field (codes "operationName") (string n) Fields.end)))
  with_both :
      {q n : Text} {v : Value Num}
      → Described q (some v) (some n) (
          object (
            field
              (codes "query")
              (string q)
              (field (codes "variables") v (field (codes "operationName") (string n) Fields.end))))

Described-json :
    {Num : Type 0} {q : Text} {vs : Option (Value Num)} {n : Option Text} {v : Value Num}
    → Described q vs n v
    → request_json (record { query = q; variables = vs; operation_name = n }) ≡ v
unfolding request_json
Described-json plain = refl
Described-json with_variables = refl
Described-json with_name = refl
Described-json with_both = refl

module _ (api : HttpApi) where
  -- `GraphqlRequestBuilder::new`, as `Client::graphql` calls it
  unfoldable pub graphql : Text → GraphqlRequestBuilder api
  unfolding new_builder
  graphql url = record {
    inner = new_builder api Method.post url;
    query = [];
    variables = none;
    operation_name = none;
  }

  unfoldable pub set_query : Text → GraphqlRequestBuilder api → GraphqlRequestBuilder api
  set_query query b = record b { query = query }

  unfoldable pub set_variables :
      Value api.codec.Num → GraphqlRequestBuilder api → GraphqlRequestBuilder api
  set_variables variables b = record b { variables = some variables }

  unfoldable pub set_operation_name : Text → GraphqlRequestBuilder api → GraphqlRequestBuilder api
  set_operation_name name b = record b { operation_name = some name }

  unfoldable pub typed_query :
      QueryBody api.codec.Num → GraphqlRequestBuilder api → GraphqlRequestBuilder api
  typed_query body b = record b {
    query = body.query;
    operation_name = some body.operation_name;
    variables = body.variables;
  }

  -- a setter of the HTTP builder below
  abbrev on_inner :
      (RequestBuilder api → RequestBuilder api)
      → GraphqlRequestBuilder api
      → GraphqlRequestBuilder api
  on_inner f b = record b { inner = f b.inner }

  unfoldable pub set_header : Text → Text → GraphqlRequestBuilder api → GraphqlRequestBuilder api
  unfolding header
  set_header key value = on_inner (header api key value)

  unfoldable pub set_bearer_auth : Text → GraphqlRequestBuilder api → GraphqlRequestBuilder api
  unfolding bearer_auth
  set_bearer_auth token = on_inner (bearer_auth api token)

  unfoldable pub set_basic_auth :
      Text → Option Text → GraphqlRequestBuilder api → GraphqlRequestBuilder api
  unfolding basic_auth
  set_basic_auth username password = on_inner (basic_auth api username password)

  unfoldable pub set_timeout : ℕ → GraphqlRequestBuilder api → GraphqlRequestBuilder api
  unfolding with_timeout
  set_timeout timeout = on_inner (with_timeout api timeout)

  abbrev pub request_of : GraphqlRequestBuilder api → GraphqlRequest api.codec.Num
  request_of b = record {
    query = b.query;
    variables = b.variables;
    operation_name = b.operation_name;
  }

  -- the HTTP request that is sent
  unfoldable pub http_request : GraphqlRequestBuilder api → RequestBuilder api
  unfolding json request_json
  http_request b = json api (api.codec.to_string (request_json (request_of b))) b.inner

  module _ (lower : Text → Text) (answer : List (Request api) → Answer api) where
    unfoldable pub graphql_send : GraphqlRequestBuilder api → World api → Outcome api
    unfolding send http_request
    graphql_send b w = send api lower answer (http_request b) w

    -- A first request that is a POST of the text, and a chain of redirects with the same text or as a GET.
    abbrev pub Posted :
        Text → GraphqlRequestBuilder api → Text → Request api → List (Request api) → Type 0
    Posted text b target req reqs =
        (req.method ≡ Method.post)
        × (req.uri ≡ target)
        × (req.body ≡ api.codec.as_bytes text)
        × Carries api lower (http_request b).headers req.headers
        × Chain api lower (http_request b).headers (some (api.codec.as_bytes text)) Method.post reqs

    first-Posted :
        (text : Text) (b : GraphqlRequestBuilder api) (target : Text) (req : Request api)
        (reqs : List (Request api))
        → (http_request b).method ≡ Method.post
        → (http_request b).body ≡ some (api.codec.as_bytes text)
        → req.uri ≡ target
        → FromFirst api lower answer (http_request b) (req ∷ reqs)
        → Posted text b target req reqs
    first-Posted text b target req reqs m k u f = (
      f.0 ∙ m,
      u,
      f.1 ∙ ap (λ o. unwrap_or o api.empty_bytes) k,
      f.2,
      subst (λ o. Chain api lower (http_request b).headers o Method.post reqs) k
          (subst (λ n. Chain api lower (http_request b).headers (http_request b).body n reqs) m
            f.3),
    )

    written-method :
        (written : Option Text) (b : RequestBuilder api) → (json api written b).method ≡ b.method
    unfolding json
    written-method none b = refl
    written-method (some t) b = refl

    written-url :
        (written : Option Text) (b : RequestBuilder api)
        → compose_url (json api written b).url (json api written b).query_params
          ≡ compose_url b.url b.query_params
    unfolding json
    written-url none b = refl
    written-url (some t) b = refl

    written-body :
        (written : Option Text) (text : Text) (b : RequestBuilder api)
        → written ≡ some text
        → (json api written b).body ≡ some (api.codec.as_bytes text)
    unfolding json
    written-body written text b h = ap (λ o. (json api o b).body) h

    -- A GraphQL call whose URL parses sends a POST to it, and then at most ten requests of redirects. The
    -- POST has as its body what is written for the object with the query, with the variables where there
    -- are any, and with the operation's name where there is one. Each request after it is a POST of the
    -- same text or a GET without a body, with no POST after a GET.
    pub graphql_send-Posted :
        (b : GraphqlRequestBuilder api) (w : World api) (url : Url api) (target : Text)
        (v : Value api.codec.Num) (text : Text)
        → b.inner.method ≡ Method.post
        → api.parse_url (compose_url b.inner.url b.inner.query_params) ≡ ok url
        → api.parse_uri (compose_url b.inner.url b.inner.query_params) ≡ ok target
        → Described b.query b.variables b.operation_name v
        → api.codec.to_string v ≡ some text
        → (req : Request api) × (reqs : List (Request api)) × ((graphql_send b w).1.wire
            ≡ w.wire ++ (req ∷ reqs))
          × (length reqs ≤ 10)
          × Posted text b target req reqs
    unfolding graphql_send http_request
    graphql_send-Posted b w url target v text m hp hu d h =
        let written = api.codec.to_string (request_json (request_of b)) in
        let e : written ≡ some text = ap api.codec.to_string (Described-json d) ∙ h in
        let same = written-url written b.inner in
        let p =
          send-Sent api lower answer (http_request b) w url target (ap api.parse_url same ∙ hp)
            (ap api.parse_uri same ∙ hu) in
        (
          first_request api lower answer (http_request b) url target w,
          p.0,
          p.1,
          p.2,
          first-Posted text b target _ p.0 (written-method written b.inner ∙ m)
              (written-body written text b.inner e) (unfold first_request in refl) p.3,
        )
