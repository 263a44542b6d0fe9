-- ===== src/Grpc.antt =====
-- tanu-core/src/grpc.rs: the logging of gRPC calls. What it takes from http, tonic, urlencoding and the
-- service that it wraps is the parameter `GrpcApi`, in which `E` is the type of their errors. Instants and
-- durations are left out; the messages of a log are always empty.
pub mod Metadata
pub mod Message
use tanu.Prelude.{
  ◌==◌, Bool, true, false, not, ◌&&◌, ◌||◌, List, [], ◌∷◌, ◌++◌, Option, none, some, Text, codes,
  text_eq, starts_with, Result, ok, err, ◌>>=◌, unwrap_or, map_option, ◌≡◌, refl, ap, sym,
  append-nil, if◌then◌else◌,
}
use tanu.Masking.Headers.{Entry, HeaderMapApi, values_of}
use tanu.Runner.Startup.{publish}
use tanu.Http.{and_then}

-- `s.ends_with(p)`
unfoldable pub ends_with : Text → Text → Bool
unfolding text_eq
ends_with [] p = text_eq [] p
ends_with (c ∷ s) p = text_eq (c ∷ s) p || ends_with s p

pub record GrpcApi : Type 1 where
  pub headers : HeaderMapApi
  pub metadata : HeaderMapApi  -- `MetadataMap`
  pub E : Type 0
  pub Code : Type 0
  pub Body : Type 0
  pub ok_code : Code
  pub to_str : Text → Option Text  -- `HeaderValue::to_str`
  pub parse_key : Text → Option Text  -- `parse::<AsciiMetadataKey>()`
  pub parse_value : Text → Option Text  -- `parse::<AsciiMetadataValue>()`
  pub parse_code : Text → Option Code  -- `parse::<i32>()`, then `Code::from`
  pub decode : Text → Option Text  -- `urlencoding::decode`

pub data Error (E : Type 0) : Type 0 where
  transport : E → Error E
  status : E → Error E
  invalid_uri : Text → Error E

module _ (api : GrpcApi) where
  pub record LogRequest : Type 0 where
    pub method : Text
    pub metadata : api.metadata.HeaderMap
    pub message : Text

  pub record LogResponse : Type 0 where
    pub metadata : api.metadata.HeaderMap
    pub message : Text
    pub status_code : api.Code
    pub status_message : Text

  pub record Log : Type 0 where
    pub request : LogRequest
    pub response : LogResponse

  pub record Request : Type 0 where
    pub path : Text
    pub headers : api.headers.HeaderMap
    pub body : api.Body

  pub record Response : Type 0 where
    pub headers : api.headers.HeaderMap
    pub body : api.Body

  -- the name and the value under which a header is logged, if it is
  unfoldable pub kept_entry : Entry → Option Entry
  unfolding starts_with ends_with
  kept_entry (key, value) =
      if not (starts_with key (codes ":")) && not (ends_with key (codes "-bin"))
      then and_then (api.to_str value) (λ value_str.
        and_then (api.parse_key key)
          (λ name. and_then (api.parse_value value_str) (λ val. some (name, val))))
      else none

  insert_kept : Option Entry → api.metadata.HeaderMap → api.metadata.HeaderMap
  insert_kept none metadata = metadata
  insert_kept (some (name, val)) metadata = api.metadata.insert name val metadata

  metadata_loop : List Entry → api.metadata.HeaderMap → api.metadata.HeaderMap
  unfolding insert_kept kept_entry
  metadata_loop [] metadata = metadata
  metadata_loop (e ∷ es) metadata = metadata_loop es (insert_kept (kept_entry e) metadata)

  unfoldable pub extract_metadata_from_headers : api.headers.HeaderMap → api.metadata.HeaderMap
  unfolding metadata_loop
  extract_metadata_from_headers headers = metadata_loop (api.headers.iter headers) api.metadata.new

  -- `headers.get(name).and_then(|v| v.to_str().ok())`
  abbrev header_text : Text → api.headers.HeaderMap → Option Text
  header_text name headers = elim (values_of name (api.headers.iter headers)) [
    | [] ↦ none
    | v ∷ vs ↦ api.to_str v
  ]

  unfoldable pub extract_grpc_status : api.headers.HeaderMap → api.Code × Text
  extract_grpc_status headers = (
    unwrap_or (and_then (header_text (codes "grpc-status") headers) api.parse_code) api.ok_code,
    unwrap_or
        (map_option (λ s. unwrap_or (api.decode s) []) (header_text (codes "grpc-message") headers))
        [],
  )

  -- the log of a call
  unfoldable pub log_of : Request → Response → Log
  unfolding extract_metadata_from_headers extract_grpc_status
  log_of req response = record {
    request = record {
      method = req.path;
      metadata = extract_metadata_from_headers req.headers;
      message = [];
    };
    response = record {
      metadata = extract_metadata_from_headers response.headers;
      message = [];
      status_code = (extract_grpc_status response.headers).0;
      status_message = (extract_grpc_status response.headers).1;
    };
  }

  -- `call` of `LoggingService`: `ready` is what the wrapped service says when it is waited for, and
  -- `inner` what it answers; the log is published, and what `publish` returns is ignored
  module _ (ready : Result api.E (Unit {0})) (inner : Request → Result api.E Response) where
    publish_call :
        Request
        → Result api.E Response
        → Option (List Log)
        → Result api.E Response × Option (List Log)
    unfolding publish log_of
    publish_call req (err e) channel = (err e, channel)
    publish_call req (ok response) channel =
        (ok response, (publish (log_of req response) channel).1)

    unfoldable pub call : Request → Option (List Log) → Result api.E Response × Option (List Log)
    unfolding publish_call
    call req channel = publish_call req (ready >>= λ u. inner req) channel

    -- what is logged of a call
    abbrev pub logged : Request → Result api.E Response → List Log
    logged req (err e) = []
    logged req (ok response) = log_of req response ∷ []

    publish_call-logged :
        (req : Request) (r : Result api.E Response) (channel : Option (List Log))
        → publish_call req r channel ≡ (r, map_option (λ logs. logs ++ logged req r) channel)
    unfolding publish_call
    publish_call-logged req (err e) none = refl
    publish_call-logged req (err e) (some logs) = ap (λ l. (err e, some l)) (sym (append-nil logs))
    publish_call-logged req (ok response) none = refl
    publish_call-logged req (ok response) (some logs) = refl

    -- The client gets what the wrapped service answers, whether the channel is open or closed: its error
    -- where it is not ready or fails, and else its response. On an open channel one log is published of
    -- a response, after those before it, and none of an error.
    pub call-logged :
        (req : Request) (channel : Option (List Log))
        → call req channel ≡ (
          ready >>= (λ u. inner req),
          map_option (λ logs. logs ++ logged req (ready >>= (λ u. inner req))) channel,
        )
    unfolding call
    call-logged req channel = publish_call-logged req (ready >>= λ u. inner req) channel

-- `connect`, with what `Endpoint::from_shared` and `Endpoint::connect` return
unfoldable pub connect :
    {E Endpoint Channel : Type 0}
    → (Text → Result Text Endpoint)
    → (Endpoint → Result E Channel)
    → Text
    → Result (Error E) Channel
connect from_shared connect_to text = elim (from_shared text) [
  | err e ↦ err (invalid_uri e)
  | ok endpoint ↦ elim (connect_to endpoint) [ err e ↦ err (transport e) | ok channel ↦ ok channel ]
]
