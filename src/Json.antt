-- ===== src/Json.antt =====
-- JSON values, as serde_json gives them to the sources: an object's keys are all different.

use maysemantic.Prelude.{
  negative, ◌-◌, ◌^◌, leb, ◌==◌, if◌then◌else◌, positive, some, none, ℕ, Integer, Option, Text,
  Bool,
}

mutual
  pub data Value : Type 0 where
    null : Value
    bool : Bool → Value
    int : Integer → Value
    -- a number with a fraction or an exponent, as it prints
    float : Text → Value
    string : Text → Value
    array : Items → Value
    object : Fields → Value

  pub data Items : Type 0 where
    nil : Items
    cons : Value → Items → Items

  pub data Fields : Type 0 where
    end : Fields
    field : Text → Value → Fields → Fields

-- `map.get(key)`
unfoldable pub get : Text → Fields → Option Value
get key end = none
get key (field k v fields) = if k == key then some v else get key fields

-- `as_str`
unfoldable pub as_str : Value → Option Text
as_str (string s) = some s
as_str _ = none

-- `as_u64`
unfoldable pub as_u64 : Value → Option ℕ
as_u64 (int (positive n)) = if leb n (2 ^ 64 - 1) then some n else none
as_u64 _ = none

-- `as_object`
unfoldable pub as_object : Value → Option Fields
as_object (object fields) = some fields
as_object _ = none

-- `as_i64`
unfoldable pub as_i64 : Value → Option Integer
as_i64 (int (positive n)) = if leb n (2 ^ 63 - 1) then some (positive n) else none
as_i64 (int (negative n)) = if leb n (2 ^ 63) then some (negative n) else none
as_i64 _ = none

-- `as_bool`
unfoldable pub as_bool : Value → Option Bool
as_bool (bool b) = some b
as_bool _ = none
