-- ===== src/Examples/Calls.antt =====
-- The HTTP client of tanu-core/src/http.rs and the GraphQL client on it, at concrete inputs.
use tanu.Prelude.{
  is_none, all, ltb, ◌||◌, ℕ, List, [], ◌∷◌, ◌++◌, ◌==◌, Option, none, some, Text, codes, ◌≡◌, ◌≤◌,
  refl, split_once, text_eq, text_eq_iff, Result, ok, err, if◌then◌else◌, length, arith,
}
use tanu.Masking.{initial_settings, equals, should_mask_sensitive}
use tanu.Masking.Headers.{Entry}
use tanu.Masking.Json.{Value, string, object, Fields, end, field}
use tanu.Masking.Body.{Codec}
use tanu.Masking.Url.{UrlApi}
use tanu.Http.{Method, Log, HttpApi, Request, Reply, Response, Answer, World}
use tanu.Http.Builder.{RequestBuilder, get, header}
use tanu.Http.Body.{set_cookies, arrived}
use tanu.Http.Send.{send}
use tanu.Http.Redirects.{compose_url}
use tanu.Http.Send.Reports.{Reported, send-Reported}
use tanu.Http.Send.Hidden.{ChannelHides, send-ChannelHides}
use tanu.Http.Send.Requests.{Puts, send-Puts}
use tanu.Http.Graphql.{
  plain, GraphqlRequestBuilder, graphql, set_query, graphql_send, Posted, graphql_send-Posted,
}
use tanu.Reporter.HttpLog.{write_http_log, has_unreadable, write_http_log-none}
use tanu.Examples.{lower}
use tanu.Examples.Redaction.{header_map}

-- a codec that writes an object of one field `query` as a brace and the text, and nothing else
abbrev brace : ℕ
brace = b'{'

abbrev write_fields : Fields ℕ → Option Text
write_fields (field name (string t) end) =
    if text_eq name (codes "query") then some (brace ∷ t) else none
write_fields fs = none

abbrev write : Value ℕ → Option Text
write (object fs) = write_fields fs
write v = none

abbrev read_query : Text → Option (Value ℕ)
read_query [] = none
read_query (c ∷ t) =
    if c == brace then some (object (field (codes "query") (string t) end)) else none

query-read :
    (name t u : Text)
    → (if text_eq name (codes "query") then some (brace ∷ t) else none) ≡ some u
    → read_query u ≡ some (object (field name (string t) end))
query-read name t u h = ground (arith, text_eq_iff name (codes "query"))

write-read : (v : Value ℕ) (t : Text) → write v ≡ some t → read_query t ≡ some v
write-read (object (field name (string q) end)) t h = query-read name q t h
write-read v t h = ground arith

abbrev query_codec : Codec
query_codec = record {
  Num = ℕ;
  Bytes = Text;
  from_slice = read_query;
  to_string = write;
  from_utf8_lossy = λ t. t;
  as_bytes = λ t. t;
  lossy-as_bytes = λ t. refl;
  from_slice-to_string = write-read;
}

-- URLs as a text before the query, and the query
abbrev question_mark : ℕ
question_mark = b'?'

abbrev pair_urls : UrlApi
pair_urls = record {
  Url = Text × Option Text;
  query = λ u. u.1;
  set_query = λ q u. (u.0, q);
  set_query-set_query = λ p q u. refl;
}

abbrev parse_pair : Text → Result Text (Text × Option Text)
unfolding split_once
parse_pair t = elim (split_once question_mark t) [
  | none ↦ ok (t, none)
  | some qs ↦ ok (qs.0, some qs.1)
]

abbrev pair_text : Text × Option Text → Text
pair_text (t, none) = t
pair_text (t, some q) = t ++ (question_mark ∷ q)

-- decoders that take off a leading byte of their own
abbrev decode_after : ℕ → Text → Option Text
decode_after b [] = none
decode_after b (c ∷ t) = if c == b then some t else none

abbrev api : HttpApi
api = record {
  maps = header_map;
  urls = pair_urls;
  codec = query_codec;
  E = Text;
  Cookie = Entry;
  header_name = λ t. some (lower t);
  header_value = λ t. some t;
  to_str = λ t. some t;
  extend = λ h k. k ++ h;
  parse_url = parse_pair;
  join_url = λ u t. ok (t, none);
  url_text = pair_text;
  host_str = λ u. some u.0;
  parse_uri = λ t. ok t;
  parse_cookie = split_once equals;
  cookie_name = λ c. c.0;
  cookie_value = λ c. c.1;
  base64 = λ t. t;
  empty_bytes = [];
  gzip = decode_after 1;
  zlib = decode_after 2;
  deflate = decode_after 3;
  brotli = decode_after 4;
  zstd = decode_after 5;
}

-- a server that sends the callers of /old to /new, where it sets a cookie
abbrev reply_to : Text → Reply api
reply_to uri =
    if text_eq uri (codes "http://host/old")
    then record {
      status = 302;
      headers = (codes "location", codes "http://host/new") ∷ [];
      body = ok [];
    }
    else record {
      status = 200;
      headers = (codes "set-cookie", codes "sid=7") ∷ [];
      body = ok (codes "hi");
    }

abbrev server : List (Request api) → Answer api
server [] = record { duration = 0; outcome = err (codes "no request") }
server (r ∷ []) = record { duration = 5; outcome = ok (reply_to r.uri) }
server (r ∷ q ∷ rs) = server (q ∷ rs)

abbrev start_world : World api
start_world = record {
  settings = initial_settings;
  cookie_store = (codes "http://host/new", (codes "theme", codes "dark") ∷ []) ∷ [];
  wire = [];
  channel = some [];
}

abbrev call_to : Text → RequestBuilder api
unfolding get header
call_to url = header api (codes "Authorization") (codes "Bearer t0k3n") (get api url)

abbrev old_call : RequestBuilder api
old_call = call_to (codes "http://host/old")

abbrev new_call : RequestBuilder api
new_call = call_to (codes "http://host/new")

-- the two requests of a call that is redirected, as their addresses
abbrev addresses : List (Request api) → List Text
addresses [] = []
addresses (r ∷ rs) = r.uri ∷ addresses rs

redirected :
    addresses (send api lower server old_call start_world).1.wire
    ≡ codes "http://host/old" ∷ codes "http://host/new" ∷ []
unfolding send parse_pair call_to
redirected = refl

send-Reported_example :
    Reported api lower server initial_settings [] old_call
      (send api lower server old_call start_world)
send-Reported_example =
    send-Reported api lower server initial_settings [] old_call start_world refl refl

send-ChannelHides_example :
    ChannelHides api lower initial_settings (send api lower server old_call start_world).1.channel
unfolding should_mask_sensitive
send-ChannelHides_example =
    send-ChannelHides api lower initial_settings server refl old_call start_world refl tt

send-Puts_example :
    Puts api lower server old_call start_world (send api lower server old_call start_world).1
send-Puts_example = send-Puts api lower server old_call start_world

-- the response to the call without redirects
abbrev new_response : Response api
unfolding set_cookies
new_response =
    arrived api (reply_to (codes "http://host/new")) (codes "http://host/new", none) (codes "hi")

abbrev zipped : List Entry
zipped = (codes "content-encoding", codes "deflate") ∷ []

abbrev question : GraphqlRequestBuilder api
unfolding graphql set_query
question = set_query api (codes "{me}") (graphql api (codes "http://host/graphql"))

graphql_send-Posted_example :
    (req : Request api) × (reqs : List (Request api)) × ((graphql_send api lower server question
        start_world).1.wire
      ≡ start_world.wire ++ (req ∷ reqs))
    × (length reqs ≤ 10)
    × Posted api lower server (brace ∷ codes "{me}") question (codes "http://host/graphql") req reqs
unfolding question text_eq compose_url parse_pair
graphql_send-Posted_example =
    graphql_send-Posted api lower server question start_world (codes "http://host/graphql", none)
      (codes "http://host/graphql") (object (field (codes "query") (string (codes "{me}")) end))
      (brace ∷ codes "{me}") refl refl refl plain refl

-- a client whose header values are read as ASCII alone
abbrev ascii_api : HttpApi
ascii_api = record api { to_str = λ t. if all (λ c. ltb c 128) t then some t else none }

abbrev names : List Entry → List Text
names [] = []
names (e ∷ es) = e.0 ∷ names es

-- a response with a Latin-1 header
abbrev latin_log : Log ascii_api
latin_log = record {
  request = record {
    url = (codes "http://host/new", none);
    method = Method.get;
    headers = [];
    body = none;
  };
  response = record { headers = (codes "x-name", 233 ∷ []) ∷ []; body = codes "hi"; status = 200 };
}

write_http_log-none_example :
    is_none (
      write_http_log {Num = ℕ}
        (λ n. [])
        (λ t. t)
        (λ t. none)
        lower
        (λ t. t ∷ [])
        ascii_api
        names
        (codes " => GET http://host/new")
        (codes "200 OK")
        latin_log)
    ≡ (has_unreadable ascii_api names latin_log.request.headers
        || has_unreadable ascii_api names latin_log.response.headers)
write_http_log-none_example =
    write_http_log-none {Num = ℕ} (λ n. []) (λ t. t) (λ t. none) lower (λ t. t ∷ []) ascii_api names
      (codes " => GET http://host/new") (codes "200 OK") latin_log
