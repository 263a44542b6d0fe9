-- ===== src/Reporter/HttpLog.antt =====
-- `write_http_log` of tanu-core/src/reporter.rs, to the lines that it writes; colours are left out.
-- `none` is the panic of `unwrap` on a header. `keys` is `HeaderMap::keys`, `text_lines` is `str::lines`,
-- and serde_json is arguments: its parser, and how it writes a number and a string.
use tanu.Prelude.{
  ℕ, zero, suc, Bool, true, false, ◌||◌, List, [], ◌∷◌, ◌++◌, map, Option, none, some, Text, codes,
  starts_with, is_empty, is_none, any, unwrap_or, map_option, if◌then◌else◌, ◌≡◌, ◌∙◌, refl, ap₂,
  arith,
}
use tanu.Masking.Json.{
  Value, Items, Fields, null, bool, number, string, array, object, nil, cons, end, field,
}
use tanu.Http.{HttpApi, HeaderMap, get_text, LogRequest, LogResponse, Log}

-- two spaces for each level
abbrev pad : ℕ → Text
pad zero = []
pad (suc n) = codes "  " ++ pad n

-- 10 is a line feed
abbrev line_feed : ℕ
line_feed = 10

module _ {Num : Type 0} (number_text : Num → Text) (quoted : Text → Text) where
  unfoldable mutual
    pub colorize_json : Value Num → ℕ → Text
    colorize_json null indent = codes "null"
    colorize_json (bool true) indent = codes "true"
    colorize_json (bool false) indent = codes "false"
    colorize_json (number n) indent = number_text n
    colorize_json (string s) indent = quoted s
    colorize_json (array nil) indent = codes "[]"
    colorize_json (array (cons v vs)) indent =
        codes "["
        ++ (line_feed
            ∷ (items_text (cons v vs) (suc indent) ++ (line_feed ∷ (pad indent ++ codes "]"))))
    colorize_json (object end) indent = codes "{}"
    colorize_json (object (field k v fs)) indent =
        codes "{"
        ++ (line_feed
            ∷ (fields_text (field k v fs) (suc indent) ++ (line_feed ∷ (pad indent ++ codes "}"))))

    items_text : Items Num → ℕ → Text
    items_text nil inner = []
    items_text (cons v nil) inner = pad inner ++ colorize_json v inner
    items_text (cons v (cons w vs)) inner =
        pad inner
        ++ colorize_json v inner
        ++ codes ","
        ++ (line_feed ∷ items_text (cons w vs) inner)

    fields_text : Fields Num → ℕ → Text
    fields_text end inner = []
    fields_text (field k v end) inner = pad inner ++ quoted k ++ codes ": " ++ colorize_json v inner
    fields_text (field k v (field j w fs)) inner =
        pad inner
        ++ quoted k
        ++ codes ": "
        ++ colorize_json v inner
        ++ codes ","
        ++ (line_feed ∷ fields_text (field j w fs) inner)

-- whether the first value of some header cannot be read as a text
abbrev pub has_unreadable : (api : HttpApi) → (HeaderMap api → List Text) → HeaderMap api → Bool
has_unreadable api keys headers = any (λ key. is_none (get_text api key headers)) (keys headers)

module _ {Num : Type 0} (number_text : Num → Text) (quoted : Text → Text)
    (from_str : Text → Option (Value Num)) (lower : Text → Text)
    (text_lines : Text → List Text) where
  unfoldable pub format_body_for_display : Text → Text → Text
  unfolding colorize_json starts_with
  format_body_for_display body content_type =
      if starts_with (lower content_type) (codes "application/json")
      then (elim (from_str body) [
        | none ↦ body
        | some json ↦ colorize_json number_text quoted json 0
      ])
      else body

  -- the lines of a body that is not empty, under its heading or not
  abbrev body_lines : Text → Text → List Text
  body_lines body content_type =
      map (λ line. codes "       " ++ line) (text_lines (format_body_for_display body content_type))

  module _ (api : HttpApi) (keys : HeaderMap api → List Text) where
    -- the line of a header: `get(key).unwrap().to_str().unwrap()`
    abbrev header_line : Text → HeaderMap api → Text → Option Text
    header_line mark headers key =
        map_option (λ value. codes "       " ++ mark ++ codes " " ++ key ++ codes ": " ++ value)
          (get_text api key headers)

    header_lines : Text → HeaderMap api → List Text → Option (List Text)
    header_lines mark headers [] = some []
    header_lines mark headers (key ∷ ks) = elim (header_line mark headers key) [
      | none ↦ none
      | some line ↦ map_option (λ ls. line ∷ ls) (header_lines mark headers ks)
    ]

    abbrev content_type : HeaderMap api → Text
    content_type headers = unwrap_or (get_text api (codes "content-type") headers) []

    abbrev request_body : LogRequest api → List Text
    request_body request = elim request.body [
      | none ↦ []
      | some body ↦
          if is_empty body
          then []
          else codes "    > body:" ∷ body_lines body (content_type request.headers)
    ]

    abbrev response_body : LogResponse api → List Text
    response_body response =
        if is_empty response.body
        then []
        else body_lines response.body (content_type response.headers)

    -- `status_text` is what is written of the status
    assembled : Text → Text → Log api → Option (List Text) → Option (List Text) → Option (List Text)
    unfolding format_body_for_display
    assembled title status_text log none res = none
    assembled title status_text log (some req) none = none
    assembled title status_text log (some req) (some res) = some (
        (title ∷ codes "  > request:" ∷ codes "    > headers:" ∷ req)
        ++ request_body log.request
        ++ (codes "  < response:"
            ∷ (codes "    < status: " ++ status_text)
            ∷ codes "    < headers:"
            ∷ res)
        ++ (codes "    < body:" ∷ response_body log.response))

    unfoldable pub write_http_log : Text → Text → Log api → Option (List Text)
    unfolding header_lines assembled
    write_http_log title status_text log =
        assembled title status_text log
          (header_lines (codes ">") log.request.headers (keys log.request.headers))
          (header_lines (codes "<") log.response.headers (keys log.response.headers))

    lines-unreadable :
        (mark : Text) (headers : HeaderMap api) (ks : List Text)
        → is_none (header_lines mark headers ks)
          ≡ any (λ key. is_none (get_text api key headers)) ks
    unfolding header_lines
    lines-unreadable mark headers [] = refl
    lines-unreadable mark headers (key ∷ ks) = ground (arith, lines-unreadable mark headers ks)

    assembled-none :
        (title status_text : Text) (log : Log api) (req res : Option (List Text))
        → is_none (assembled title status_text log req res) ≡ (is_none req || is_none res)
    unfolding assembled
    assembled-none title status_text log none res = refl
    assembled-none title status_text log (some req) none = refl
    assembled-none title status_text log (some req) (some res) = refl

    -- Writing the log of a call panics exactly if the first value of some header, of the request or of
    -- the response, cannot be read as a text.
    pub write_http_log-none :
        (title status_text : Text) (log : Log api)
        → is_none (write_http_log title status_text log) ≡ (
            has_unreadable api keys log.request.headers
            || has_unreadable api keys log.response.headers)
    unfolding write_http_log
    write_http_log-none title status_text log =
        assembled-none title status_text log _ _
        ∙ ap₂ (λ a b. a || b)
            (lines-unreadable (codes ">") log.request.headers (keys log.request.headers))
            (lines-unreadable (codes "<") log.response.headers (keys log.response.headers))
