-- ===== src/Masking/Json.antt =====
-- `mask_json_value` of tanu-core/src/masking.rs. `Num` stands for `serde_json::Number`, which the
-- walk never looks into; an object is its list of fields in iteration order, and since the walk
-- keeps the names, `collect` gives back a map of the same names.
use tanu.Prelude.{Bool, true, false, ap, ap₂, Text, ◌≡◌, refl, if◌then◌else◌, Bool-cases, inl, inr}
use tanu.Masking.{Settings, mask, is_sensitive_key}

mutual
  pub data Value (Num : Type 0) : Type 0 where
    null : Value Num
    bool : Bool → Value Num
    number : Num → Value Num
    string : Text → Value Num
    array : Items Num → Value Num
    object : Fields Num → Value Num

  pub data Items (Num : Type 0) : Type 0 where
    nil : Items Num
    cons : Value Num → Items Num → Items Num

  pub data Fields (Num : Type 0) : Type 0 where
    end : Fields Num
    field : Text → Value Num → Fields Num → Fields Num

module _ {Num : Type 0} (lower : Text → Text) (s : Settings) where
  unfoldable mutual
    pub mask_json_value : Value Num → Value Num
    mask_json_value (object map) = object (mask_fields map)
    mask_json_value (array arr) = array (mask_items arr)
    mask_json_value null = null
    mask_json_value (bool b) = bool b
    mask_json_value (number n) = number n
    mask_json_value (string t) = string t

    pub mask_items : Items Num → Items Num
    mask_items nil = nil
    mask_items (cons v vs) = cons (mask_json_value v) (mask_items vs)

    pub mask_fields : Fields Num → Fields Num
    mask_fields end = end
    mask_fields (field k v fs) =
        let new_v = mask_json_value v in
        field k (if is_sensitive_key lower s k then string mask else new_v) (mask_fields fs)

  -- `v'` is what a log may show of the value `v`: the same shape and scalars, but that a field with a
  -- sensitive name holds the mask.
  mutual
    pub data Redacted : Value Num → Value Num → Type 0 where
      keep_null : Redacted null null
      keep_bool : (b : Bool) → Redacted (bool b) (bool b)
      keep_number : (n : Num) → Redacted (number n) (number n)
      keep_string : (t : Text) → Redacted (string t) (string t)
      in_array : (xs ys : Items Num) → RedactedItems xs ys → Redacted (array xs) (array ys)
      in_object : (fs gs : Fields Num) → RedactedFields fs gs → Redacted (object fs) (object gs)

    pub data RedactedItems : Items Num → Items Num → Type 0 where
      no_items : RedactedItems nil nil
      item :
          (v w : Value Num) (vs ws : Items Num)
          → Redacted v w
          → RedactedItems vs ws
          → RedactedItems (cons v vs) (cons w ws)

    pub data RedactedFields : Fields Num → Fields Num → Type 0 where
      no_fields : RedactedFields end end
      hidden :
          (k : Text) (v : Value Num) (fs gs : Fields Num)
          → is_sensitive_key lower s k ≡ true
          → RedactedFields fs gs
          → RedactedFields (field k v fs) (field k (string mask) gs)
      shown :
          (k : Text) (v w : Value Num) (fs gs : Fields Num)
          → is_sensitive_key lower s k ≡ false
          → Redacted v w
          → RedactedFields fs gs
          → RedactedFields (field k v fs) (field k w gs)

  mutual
    unfolding mask_json_value mask_items mask_fields

    value-Redacted : (v : Value Num) → Redacted v (mask_json_value v)
    value-Redacted null = keep_null
    value-Redacted (bool b) = keep_bool b
    value-Redacted (number n) = keep_number n
    value-Redacted (string t) = keep_string t
    value-Redacted (array xs) = in_array xs (mask_items xs) (items_redacted xs)
    value-Redacted (object fs) = in_object fs (mask_fields fs) (fields_redacted fs)

    items_redacted : (xs : Items Num) → RedactedItems xs (mask_items xs)
    items_redacted nil = no_items
    items_redacted (cons v vs) =
        item v (mask_json_value v) vs (mask_items vs) (value-Redacted v) (items_redacted vs)

    fields_redacted : (fs : Fields Num) → RedactedFields fs (mask_fields fs)
    fields_redacted end = no_fields
    fields_redacted (field k v fs) = elim (Bool-cases (is_sensitive_key lower s k)) [
      | inl y ↦ rw y (hidden k v fs (mask_fields fs) y (fields_redacted fs))
      | inr n ↦ rw n (
          shown k v (mask_json_value v) fs (mask_fields fs) n (value-Redacted v)
            (fields_redacted fs))
    ]

  -- At every depth the masked value has the shape and the scalars of the value, but that each field
  -- with a sensitive name holds the mask, whatever it held.
  pub mask_json_value-Redacted : (v : Value Num) → Redacted v (mask_json_value v)
  mask_json_value-Redacted v = value-Redacted v

  mutual
    unfolding mask_json_value mask_items mask_fields

    value_fixed : (v : Value Num) → mask_json_value (mask_json_value v) ≡ mask_json_value v
    value_fixed null = refl
    value_fixed (bool b) = refl
    value_fixed (number n) = refl
    value_fixed (string t) = refl
    value_fixed (array xs) = ap array (items_fixed xs)
    value_fixed (object fs) = ap object (fields_fixed fs)

    items_fixed : (xs : Items Num) → mask_items (mask_items xs) ≡ mask_items xs
    items_fixed nil = refl
    items_fixed (cons v vs) = ap₂ cons (value_fixed v) (items_fixed vs)

    fields_fixed : (fs : Fields Num) → mask_fields (mask_fields fs) ≡ mask_fields fs
    fields_fixed end = refl
    fields_fixed (field k v fs) = elim (Bool-cases (is_sensitive_key lower s k)) [
      | inl y ↦ rw y (ap (field k (string mask)) (fields_fixed fs))
      | inr n ↦ rw n (ap₂ (field k) (value_fixed v) (fields_fixed fs))
    ]

  -- Masking a masked value changes nothing.
  pub mask_json_value_idempotent :
      (v : Value Num) → mask_json_value (mask_json_value v) ≡ mask_json_value v
  mask_json_value_idempotent v = value_fixed v
