-- ===== src/Tui/Info/Payload.antt =====
-- `build_http_payload_text` of tanu-tui/src/widget/info.rs. serde_json, `trim` and the highlighting are
-- arguments; `J` is a JSON value, which is always printed.
use tanu.Prelude.{
  Bool, true, false, ◌||◌, ◌&&◌, [], ◌∷◌, ◌++◌, Option, none, some, Text, codes, starts_with,
  is_empty, unwrap_or, is_none, if◌then◌else◌, ◌≡◌, arith,
}
use tanu.Http.{HttpApi, HeaderMap, get_text, Log}

module _ {J Color : Type 0} (from_str : Text → Option J) (to_string_pretty : J → Text)
    (trim : Text → Text) (highlight_source_code : Text → Color × Text) where
  unfoldable pub pretty_print_if_json : Text → Text → Text
  unfolding starts_with
  pretty_print_if_json body content_type =
      if starts_with content_type (codes "application/json")
      then (elim (from_str body) [ none ↦ body | some json ↦ to_string_pretty json ])
      else body

  -- a response to a request without a body
  response_alone : Bool → Text → Option (Option Color × Text)
  response_alone false res_body = some (none, res_body)
  response_alone true res_body = elim (from_str res_body) [
    | none ↦ none
    | some json ↦
        let highlighted = highlight_source_code (to_string_pretty json) in
        some (some highlighted.0, highlighted.1)
  ]

  -- a request with its body, and the response if it has one; 10 is a line feed
  both_bodies : Text → Text → Text → Text → Text
  unfolding pretty_print_if_json
  both_bodies req_body req_ct res_body res_ct =
      codes "Request Body:"
      ++ (10 ∷ pretty_print_if_json req_body req_ct)
      ++ (if is_empty res_body
          then []
          else (10 ∷ 10 ∷ codes "Response Body:") ++ (10 ∷ pretty_print_if_json res_body res_ct))

  payload_text : Text → Text → Text → Text → Option (Option Color × Text)
  unfolding response_alone both_bodies starts_with
  payload_text req_body req_ct res_body res_ct =
      if is_empty req_body && is_empty res_body
      then none
      else if is_empty req_body
      then response_alone (starts_with res_ct (codes "application/json")) res_body
      else some (none, both_bodies req_body req_ct res_body res_ct)

  module _ (api : HttpApi) where
    -- `headers.get("content-type").and_then(..).unwrap_or("")`
    abbrev pub content_type : HeaderMap api → Text
    content_type headers = unwrap_or (get_text api (codes "content-type") headers) []

    unfoldable pub build_http_payload_text : Log api → Option (Option Color × Text)
    unfolding payload_text
    build_http_payload_text http_call =
        payload_text (trim (unwrap_or http_call.request.body []))
          (content_type http_call.request.headers) (trim http_call.response.body)
          (content_type http_call.response.headers)

    -- whether the panel is hidden
    abbrev pub is_hidden : Log api → Bool
    is_hidden http_call =
        is_empty (trim (unwrap_or http_call.request.body []))
        && (is_empty (trim http_call.response.body)
            || (starts_with (content_type http_call.response.headers) (codes "application/json")
                && is_none (from_str (trim http_call.response.body))))

    -- The panel of bodies is hidden exactly where the request has none and the response has none either,
    -- or is said to be JSON and does not parse.
    pub build_http_payload_text-none :
        (http_call : Log api) → is_none (build_http_payload_text http_call) ≡ is_hidden http_call
    unfolding build_http_payload_text
    build_http_payload_text-none http_call = ground arith
