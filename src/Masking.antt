-- ===== src/Masking.antt =====
-- tanu-core/src/masking.rs: the settings, the keyword tests, and the masking of queries and form
-- bodies. `str::to_lowercase` goes by Unicode tables, so it is the parameter `lower`. The statics
-- behind their locks are one record of settings, which the setters return anew.
pub mod Query
pub mod Keys
pub mod Json
pub mod Body
pub mod Headers
pub mod Url
use tanu.Prelude.{
  ℕ, Bool, true, false, ◌||◌, List, [], ◌∷◌, ◌++◌, map, Option, none, some, Text, codes, text_eq,
  contains, any, split, split_once, join, if◌then◌else◌,
}

abbrev pub mask : Text
mask = codes "*****"

abbrev pub ampersand : ℕ
ampersand = b'&'

abbrev pub equals : ℕ
equals = b'='

pub record Settings : Type 0 where
  pub mask_sensitive : Bool
  pub extra_keys : List Text
  pub extra_headers : List Text

abbrev pub initial_settings : Settings
initial_settings = record { mask_sensitive = true; extra_keys = []; extra_headers = [] }

unfoldable pub set_mask_sensitive : Bool → Settings → Settings
set_mask_sensitive enabled s = record s { mask_sensitive = enabled }

unfoldable pub should_mask_sensitive : Settings → Bool
should_mask_sensitive s = s.mask_sensitive

abbrev pub sensitive_key_substrings : List Text
sensitive_key_substrings = map codes (
    "access_token" ∷ "api_key" ∷ "apikey" ∷ "token" ∷ "secret" ∷ "password" ∷ "passwd" ∷ "pwd"
    ∷ "key" ∷ "auth" ∷ "credential" ∷ "credentials" ∷ "private_key" ∷ "session" ∷ "session_id"
    ∷ "id_token" ∷ "signature" ∷ "client_id" ∷ [])

abbrev pub sensitive_headers : List Text
sensitive_headers = map codes (
    "authorization" ∷ "x-api-key" ∷ "x-auth-token" ∷ "cookie" ∷ "set-cookie" ∷ "proxy-authorization"
    ∷ "x-amz-security-token" ∷ "x-csrf-token" ∷ "x-csrf" ∷ "api-key" ∷ [])

module _ (lower : Text → Text) where
  unfoldable pub set_extra_sensitive_keys : List Text → Settings → Settings
  set_extra_sensitive_keys keys s = record s { extra_keys = map lower keys }

  unfoldable pub set_extra_sensitive_headers : List Text → Settings → Settings
  set_extra_sensitive_headers headers s = record s { extra_headers = map lower headers }

  unfoldable pub is_sensitive_key : Settings → Text → Bool
  unfolding contains
  is_sensitive_key s key =
      let key_lower = lower key in
      if any (contains key_lower) sensitive_key_substrings
      then true
      else any (contains key_lower) s.extra_keys

  unfoldable pub is_sensitive_header : Settings → Text → Bool
  unfolding text_eq
  is_sensitive_header s name =
      let name_lower = lower name in
      if any (text_eq name_lower) sensitive_headers
      then true
      else any (text_eq name_lower) s.extra_headers

  mask_split : Settings → Text → Option (Text × Text) → Text
  mask_split s pair none = pair
  mask_split s pair (some (key, value)) =
      if is_sensitive_key s key then key ++ (equals ∷ mask) else pair

  -- the closure of `map` over the parts of a query or of a form
  unfoldable pub mask_pair : Settings → Text → Text
  unfolding mask_split split_once
  mask_pair s pair = mask_split s pair (split_once equals pair)

  -- the raw query string, and the body of a form, which the source treats alike
  unfoldable pub mask_query : Settings → Text → Text
  unfolding mask_pair split join
  mask_query s query = join ampersand (map (mask_pair s) (split ampersand query))
