-- ===== src/Masking/Body.antt =====
-- `mask_body` of tanu-core/src/masking.rs. `serde_json` and the UTF-8 conversions of the standard
-- library enter as the operations of `Codec`, with what is used of them.
use tanu.Prelude.{
  Bool, Option, none, some, Text, codes, ◌≡◌, refl, starts_with, if◌then◌else◌, unwrap_or, arith,
  Option-cases, Bool-cases, inl, inr,
}
use tanu.Masking.{Settings, mask_query}
use tanu.Masking.Query.{mask_query_idempotent}
use tanu.Masking.Json.{Value, mask_json_value, mask_json_value_idempotent}

pub record Codec : Type 1 where
  pub Num : Type 0
  pub Bytes : Type 0
  -- `serde_json::from_slice`, `serde_json::to_string`
  pub from_slice : Bytes → Option (Value Num)
  pub to_string : Value Num → Option Text
  -- `String::from_utf8_lossy`, `str::as_bytes`
  pub from_utf8_lossy : Bytes → Text
  pub as_bytes : Text → Bytes
  -- a text is its bytes
  pub lossy-as_bytes : (t : Text) → from_utf8_lossy (as_bytes t) ≡ t
  -- what is printed is read back
  pub from_slice-to_string :
      (v : Value Num) (t : Text) → to_string v ≡ some t → from_slice (as_bytes t) ≡ some v

module _ (lower : Text → Text) (codec : Codec) (s : Settings) where
  open codec use {
    Num, Bytes, from_slice, to_string, from_utf8_lossy, as_bytes, lossy-as_bytes,
    from_slice-to_string,
  }

  mask_parsed : Bytes → Option (Value Num) → Text
  mask_parsed body none = from_utf8_lossy body
  mask_parsed body (some json) =
      unwrap_or (to_string (mask_json_value lower s json)) (from_utf8_lossy body)

  unfoldable pub mask_body : Bytes → Option Text → Text
  unfolding mask_parsed
  mask_body body content_type =
      let ct = lower (unwrap_or content_type (codes "")) in
      if starts_with ct (codes "application/json")
      then mask_parsed body (from_slice body)
      else if starts_with ct (codes "application/x-www-form-urlencoded")
      then mask_query lower s (from_utf8_lossy body)
      else from_utf8_lossy body

  abbrev is_json : Option Text → Bool
  is_json content_type =
      starts_with (lower (unwrap_or content_type (codes ""))) (codes "application/json")

  abbrev is_form : Option Text → Bool
  is_form content_type =
      starts_with (lower (unwrap_or content_type (codes "")))
        (codes "application/x-www-form-urlencoded")

  -- how the printing of the masked value comes out
  mask_parsed-some :
      (body : Bytes) (v : Value Num)
      → as_bytes (from_utf8_lossy body) ≡ body
      → from_slice body ≡ some v
      → mask_parsed
          (as_bytes (mask_parsed body (some v)))
          (from_slice (as_bytes (mask_parsed body (some v))))
        ≡ mask_parsed body (some v)
  unfolding mask_parsed
  mask_parsed-some body v valid e = elim (Option-cases (to_string (mask_json_value lower s v))) [
    | inl fails ↦ ground (arith, fails)
    | inr (t, prints) ↦ ground (
      arith,
      from_slice-to_string (mask_json_value lower s v) t prints,
      mask_json_value_idempotent lower s v,
      prints,
    )
  ]

  mask_parsed_idempotent :
      (body : Bytes) (o : Option (Value Num))
      → as_bytes (from_utf8_lossy body) ≡ body
      → from_slice body ≡ o
      → mask_parsed (as_bytes (mask_parsed body o)) (from_slice (as_bytes (mask_parsed body o)))
        ≡ mask_parsed body o
  mask_parsed_idempotent body none valid e = unfold mask_parsed in ground arith
  mask_parsed_idempotent body (some v) valid e = mask_parsed-some body v valid e

  -- Masking the bytes of a masked body under the same content type changes nothing, whatever the
  -- content type is and whether the body parses or not, for a body that is UTF-8.
  pub mask_body_idempotent :
      (body : Bytes) (content_type : Option Text)
      → as_bytes (from_utf8_lossy body) ≡ body
      → mask_body (as_bytes (mask_body body content_type)) content_type
        ≡ mask_body body content_type
  unfolding mask_body
  mask_body_idempotent body content_type valid = elim (Bool-cases (is_json content_type)) [
    | inl json ↦ rw json (mask_parsed_idempotent body (from_slice body) valid refl)
    | inr not_json ↦ elim (Bool-cases (is_form content_type)) [
      | inl form ↦
          rw (not_json, form, lossy-as_bytes, mask_query_idempotent lower s (from_utf8_lossy body))
      | inr other ↦ rw (not_json, other, lossy-as_bytes)
    ]
  ]
