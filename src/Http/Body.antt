-- ===== src/Http/Body.antt =====
-- `Response::from` and `decompress_body` of tanu-core/src/http.rs.
use tanu.Prelude.{
  List, [], ◌∷◌, Option, none, some, Text, codes, text_eq, Result, ok, err, or_else, unwrap_or,
  if◌then◌else◌, ◌≡◌, ap, refl, arith,
}
use tanu.Http.{
  HttpApi, HeaderMap, Url, Bytes, get_all, get_text, and_then, Error, http, deserialize, Reply,
  Response,
}

module _ (api : HttpApi) where
  -- `String::from_utf8_lossy` of what a decoder gives, and of the bytes where it fails
  decoded : Bytes api → Option (Bytes api) → Text
  decoded body_bytes none = api.codec.from_utf8_lossy body_bytes
  decoded body_bytes (some decompressed) = api.codec.from_utf8_lossy decompressed

  -- zlib first, and then raw deflate
  inflated : Bytes api → Option (Bytes api) → Text
  unfolding decoded
  inflated body_bytes none = decoded body_bytes (api.deflate body_bytes)
  inflated body_bytes (some decompressed) = api.codec.from_utf8_lossy decompressed

  decompress : Option Text → Bytes api → Text
  unfolding decoded inflated text_eq
  decompress none body_bytes = api.codec.from_utf8_lossy body_bytes
  decompress (some encoding) body_bytes =
      if text_eq encoding (codes "gzip")
      then decoded body_bytes (api.gzip body_bytes)
      else if text_eq encoding (codes "deflate")
      then inflated body_bytes (api.zlib body_bytes)
      else if text_eq encoding (codes "br")
      then decoded body_bytes (api.brotli body_bytes)
      else if text_eq encoding (codes "zstd")
      then decoded body_bytes (api.zstd body_bytes)
      else api.codec.from_utf8_lossy body_bytes

  unfoldable pub decompress_body : HeaderMap api → Bytes api → Text
  unfolding decompress
  decompress_body headers body_bytes =
      decompress (get_text api (codes "content-encoding") headers) body_bytes

  -- the cookies that can be read
  unfoldable pub parse_cookies : List Text → List api.Cookie
  parse_cookies [] = []
  parse_cookies (v ∷ vs) = elim (and_then (api.to_str v) api.parse_cookie) [
    | none ↦ parse_cookies vs
    | some c ↦ c ∷ parse_cookies vs
  ]

  unfoldable pub set_cookies : HeaderMap api → List api.Cookie
  unfolding parse_cookies
  set_cookies headers = parse_cookies (get_all api (codes "set-cookie") headers)

  from_body : Reply api → Url api → Result api.E (Bytes api) → Result (Error api.E) (Response api)
  unfolding set_cookies decompress_body
  from_body res url (err e) = err (http e)
  from_body res url (ok body_bytes) = ok (record {
    headers = res.headers;
    status = res.status;
    text = decompress_body res.headers body_bytes;
    url = url;
    cookies = set_cookies res.headers;
  })

  -- `Response::from`
  unfoldable pub response_from : Reply api → Url api → Result (Error api.E) (Response api)
  unfolding from_body
  response_from res url = from_body res url res.body

  -- the response whose body was read
  abbrev pub arrived : Reply api → Url api → Bytes api → Response api
  arrived res url body_bytes = record {
    headers = res.headers;
    status = res.status;
    text = decompress_body res.headers body_bytes;
    url = url;
    cookies = set_cookies res.headers;
  }

  pub response_from-ok :
      (res : Reply api) (url : Url api) (body_bytes : Bytes api)
      → res.body ≡ ok body_bytes
      → response_from res url ≡ ok (arrived res url body_bytes)
  unfolding response_from
  response_from-ok res url body_bytes h = ap (from_body res url) h

  -- `Response::json`, with `from_str` as the parser of the type that is asked for
  unfoldable pub json :
      {A : Type 0} → (Text → Result api.E A) → Response api → Result (Error api.E) A
  json from_str r = elim (from_str r.text) [ err e ↦ err (deserialize e) | ok a ↦ ok a ]

  -- the decoders that are tried for an encoding, in their order
  abbrev pub decoders : Text → List (Bytes api → Option (Bytes api))
  decoders encoding =
      if text_eq encoding (codes "gzip")
      then api.gzip ∷ []
      else if text_eq encoding (codes "deflate")
      then api.zlib ∷ api.deflate ∷ []
      else if text_eq encoding (codes "br")
      then api.brotli ∷ []
      else if text_eq encoding (codes "zstd")
      then api.zstd ∷ []
      else []

  -- the first that succeeds
  abbrev pub first_of_decoders :
      List (Bytes api → Option (Bytes api)) → Bytes api → Option (Bytes api)
  first_of_decoders [] b = none
  first_of_decoders (f ∷ fs) b = or_else (f b) (first_of_decoders fs b)

  decoded-first :
      (b : Bytes api) (o : Option (Bytes api))
      → decoded b o ≡ api.codec.from_utf8_lossy (unwrap_or (or_else o none) b)
  unfolding decoded
  decoded-first b none = refl
  decoded-first b (some c) = refl

  inflated-first :
      (b : Bytes api) (o : Option (Bytes api))
      → inflated b o
        ≡ api.codec.from_utf8_lossy (unwrap_or (or_else o (or_else (api.deflate b) none)) b)
  unfolding inflated
  inflated-first b none = decoded-first b (api.deflate b)
  inflated-first b (some c) = refl

  encoding-decoders :
      (o : Option Text) (b : Bytes api)
      → decompress o b
        ≡ api.codec.from_utf8_lossy
            (unwrap_or (and_then o (λ encoding. first_of_decoders (decoders encoding) b)) b)
  unfolding decompress
  encoding-decoders none b = refl
  encoding-decoders (some encoding) b = ground (
    arith,
    decoded-first b (api.gzip b),
    inflated-first b (api.zlib b),
    decoded-first b (api.brotli b),
    decoded-first b (api.zstd b),
  )

  -- The text of a response is that of the bytes that the first decoder that succeeds gives, of those
  -- for the header `content-encoding`; where none succeeds, or there is no such header or another
  -- encoding, it is that of the bytes as they came.
  pub decompress_body-decoders :
      (headers : HeaderMap api) (body_bytes : Bytes api)
      → decompress_body headers body_bytes
        ≡ api.codec.from_utf8_lossy (
            unwrap_or
              (and_then
                (get_text api (codes "content-encoding") headers)
                (λ encoding. first_of_decoders (decoders encoding) body_bytes))
              body_bytes)
  unfolding decompress_body
  decompress_body-decoders headers body_bytes =
      encoding-decoders (get_text api (codes "content-encoding") headers) body_bytes
