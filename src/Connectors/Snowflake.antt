-- ===== src/Connectors/Snowflake.antt =====
-- may_connectors/src/dwh/snowflake.rs, the values of a row. `str::parse::<f64>` and base64 are
-- parameters; the name of a type is ASCII.
pub mod Types
pub mod Token
pub mod Poll
pub mod Execute
-- what the standard library and the crate base64 read
use maysemantic.Json.{cons}
use Prim.Native.String.{String}
use maysemantic.Json
use maysemantic.Json.{nil, cons}
use maysemantic.Connectors.{
  Items, Row, query_failed, ColumnValue, ConnectorError, Value, null, int64, float64, text, bool,
  bytes,
}
use maysemantic.Prelude.{
  ok-injective, subst, suc, inr, inl, Bool-cases, ◌||◌, negative, parse_i64, ◌≡◌, ◌==◌, ok_or,
  nat_eq, ◌++◌, positive, Result, if◌then◌else◌, List, ℕ, to_ascii_lower, to_ascii_upper, Integer,
  str, Text, Option, ok, err, some, none, [], ◌∷◌, Bool, ◌>>=◌, map, true, false,
}

pub record Formats : Type 0 where
  pub parse_f64 : Text → Option ℕ
  pub decode_base64 : Text → Option (List ℕ)

pub data FieldType : Type 0 where
  fixed real boolean binary other : FieldType

-- the cases of `match field_type_upper.as_str()`
unfoldable pub field_type_of : Text → FieldType
unfolding str
field_type_of field_type =
    let t = map to_ascii_upper field_type in
    if t == str "FIXED" || t == str "NUMBER"
    then fixed
    else if t == str "REAL" || (t == str "FLOAT" || t == str "DOUBLE")
    then real
    else if t == str "BOOLEAN"
    then boolean
    else if t == str "BINARY"
    then binary
    else other

-- `scale.unwrap_or(0) == 0`
pub is_integral : Option Integer → Bool
is_integral none = Bool.true
is_integral (some (positive n)) = nat_eq n 0
is_integral (some (negative n)) = Bool.false

-- `"true" | "1"` and `"false" | "0"`
read_bool : Text → Option Bool
read_bool s =
    let t = map to_ascii_lower s in
    if t == str "true" || t == str "1"
    then some Bool.true
    else if t == str "false" || t == str "0"
    then some Bool.false
    else none

-- `{message} column '{col_name}': {detail}`
column_error : String → Text → Text → ConnectorError
column_error message col_name detail =
    query_failed (str message ++ (str " column '" ++ (col_name ++ (str "': " ++ detail))))

module _ ⦃F : Formats⦄ where
  map_text : FieldType → Option Integer → Text → Text → Result ConnectorError ColumnValue
  map_text fixed scale col_name s =
      if is_integral scale
      then (ok_or (parse_i64 s) (column_error "Failed to parse FIXED (scale=0) for" col_name s)
          >>= λ i. ok (int64 i))
      else (ok_or (F.parse_f64 s) (column_error "Failed to parse FIXED (scale>0) for" col_name s)
          >>= λ f. ok (float64 f))
  map_text real scale col_name s =
      ok_or (F.parse_f64 s) (column_error "Failed to parse REAL/FLOAT for" col_name s) >>= λ f.
      ok (float64 f)
  map_text boolean scale col_name s =
      ok_or (read_bool s) (column_error "Failed to parse BOOLEAN for" col_name s) >>= λ b.
      ok (bool b)
  map_text binary scale col_name s =
      ok_or (F.decode_base64 s) (column_error "Failed to decode base64 BINARY for" col_name [])
      >>= λ bs. ok (bytes bs)
  map_text other scale col_name s = ok (text s)

  unfoldable pub map_cell : Value → Text → Option Integer → Text → Result ConnectorError ColumnValue
  unfolding map_text column_error is_integral read_bool str
  map_cell Json.null field_type scale col_name = ok null
  map_cell (Json.string s) field_type scale col_name =
      map_text (field_type_of field_type) scale col_name s
  map_cell value field_type scale col_name =
      err (
        query_failed (str "Expected string value for column '" ++ (col_name ++ str "', but got: ")))

abbrev pub head_or {ℓ} : {A : Type ℓ} → A → List A → A
head_or d [] = d
head_or d (x ∷ xs) = x

abbrev pub tail {ℓ} : {A : Type ℓ} → List A → List A
tail [] = []
tail (x ∷ xs) = xs

-- The names, types and scales are those of the columns from the first cell on.
module _ ⦃F : Formats⦄ where
  unfoldable pub map_row :
      Items → List Text → List Text → List (Option Integer) → Result ConnectorError Row
  unfolding str
  map_row nil col_names col_types col_scales = ok []
  map_row (cons cell cells) col_names col_types col_scales = do
    v ←
        map_cell cell (head_or (str "TEXT") col_types) (head_or none col_scales)
          (head_or (str "unknown") col_names)
    row ← map_row cells (tail col_names) (tail col_types) (tail col_scales)
    ok (v ∷ row)
