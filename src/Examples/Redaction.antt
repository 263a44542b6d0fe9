-- ===== src/Examples/Redaction.antt =====
-- Masking: tanu-core/src/masking.rs at concrete inputs.
use tanu.Prelude.{
  ℕ, List, [], ◌∷◌, ◌==◌, map, Option, none, some, Text, codes, ◌≡◌, refl, All, split,
  if◌then◌else◌, text_eq, text_eq_iff, arith,
}
use tanu.Masking.{
  initial_settings, mask, ampersand, mask_query, is_sensitive_key, is_sensitive_header,
}
use tanu.Masking.Query.{IsHidden, mask_query-IsHidden}
use tanu.Masking.Json.{
  Value, string, number, object, Fields, end, field, mask_json_value, mask_json_value-Redacted,
  mask_json_value_idempotent,
}
use tanu.Masking.Json
use tanu.Masking.Body.{Codec}
use tanu.Masking.Headers.{
  Entry, values_of, only_last, HeaderMapApi, mask_headers, mask_headers-values,
}
use tanu.Masking.Url.{UrlApi}
use tanu.Examples.{lower}

abbrev query : Text
query = codes "user=ann&API_Token=abc=1&debug"

mask_query-IsHidden_example :
    All
      (IsHidden lower initial_settings)
      (split ampersand (mask_query lower initial_settings query))
mask_query-IsHidden_example = mask_query-IsHidden lower initial_settings query

-- the query as it is logged
query_masked : mask_query lower initial_settings query ≡ codes "user=ann&API_Token=*****&debug"
unfolding mask_query is_sensitive_key
query_masked = refl

-- {"name": "ann", "auth": {"id": 7}}
abbrev document : Value ℕ
document = object (
    field (codes "name") (string (codes "ann"))
      (field (codes "auth") (object (field (codes "id") (number 7) end)) end))

mask_json_value-Redacted_example :
    Json.Redacted lower initial_settings document (mask_json_value lower initial_settings document)
mask_json_value-Redacted_example = mask_json_value-Redacted lower initial_settings document

-- a codec that prints a string as a quote and its text, and prints no other value
abbrev quoted : ℕ
quoted = b'"'

abbrev print : Value ℕ → Option Text
print (string t) = some (quoted ∷ t)
print v = none

abbrev read : Text → Option (Value ℕ)
read [] = none
read (c ∷ t) = if c == quoted then some (string t) else none

print-read : (v : Value ℕ) (t : Text) → print v ≡ some t → read t ≡ some v
print-read v t h = ground arith

abbrev codec : Codec
codec = record {
  Num = ℕ;
  Bytes = Text;
  from_slice = read;
  to_string = print;
  from_utf8_lossy = λ t. t;
  as_bytes = λ t. t;
  lossy-as_bytes = λ t. refl;
  from_slice-to_string = print-read;
}

-- headers as a list of entries, in which an insertion takes the entries of the name away
abbrev drop_name : Text → List Entry → List Entry
drop_name name [] = []
drop_name name ((n, v) ∷ es) =
    let rest = drop_name name es in if text_eq n name then rest else (n, v) ∷ rest

values-drop :
    (name m : Text) (es : List Entry)
    → values_of m (drop_name name es) ≡ (if text_eq name m then [] else values_of m es)
values-drop name m [] = ground arith
values-drop name m ((n, v) ∷ es) =
    ground (arith, values-drop name m es, text_eq_iff n name, text_eq_iff n m, text_eq_iff name m)

pub values-insert_entry :
    (h : List Entry) (n v m : Text)
    → values_of m ((n, v) ∷ drop_name n h) ≡ (if text_eq n m then v ∷ [] else values_of m h)
values-insert_entry h n v m = ground (arith, values-drop n m h)

abbrev pub header_map : HeaderMapApi
header_map = record {
  HeaderMap = List Entry;
  new = [];
  iter = λ h. h;
  insert = λ n v h. (n, v) ∷ drop_name n h;
  iter-new = refl;
  values-insert = values-insert_entry;
}

abbrev cookies : List Entry
cookies =
    (codes "set-cookie", codes "a=1")
    ∷ (codes "accept", codes "*/*")
    ∷ (codes "set-cookie", codes "b=2")
    ∷ []

mask_headers-values_example :
    values_of (codes "set-cookie") (mask_headers lower header_map initial_settings cookies)
    ≡ map
        (λ v. if is_sensitive_header lower initial_settings (codes "set-cookie") then mask else v)
        (only_last (values_of (codes "set-cookie") cookies))
mask_headers-values_example =
    mask_headers-values lower header_map initial_settings cookies (codes "set-cookie")

-- URLs as their query alone
abbrev url_api : UrlApi
url_api = record {
  Url = Option Text;
  query = λ u. u;
  set_query = λ q u. q;
  set_query-set_query = λ p q u. refl;
}
