-- ===== src/Connectors/BigQuery.antt =====
-- `map_cell`, may_connectors/src/dwh/bigquery.rs. serde_json's printing and its `as_f64`, and what the
-- standard library and base64 read, are parameters.
pub mod Token
pub mod Pages
use Prim.Native.String.{String}
use maysemantic.Json
use maysemantic.Json.{as_str, as_i64, as_bool}
use maysemantic.Connectors.{
  ColumnValue, query_failed, ConnectorError, Value, null, int64, float64, text, bool, bytes,
}
use maysemantic.Prelude.{
  parse_i64, get_or, ◌||◌, ok_or, ◌++◌, List, Result, if◌then◌else◌, ℕ, Option, Text, str, ok, err,
  some, none, [], ◌∷◌, ◌>>=◌, ◌==◌,
}

pub record Readers : Type 0 where
  pub show_json : Value → Text
  pub as_f64 : Value → Option ℕ
  pub parse_f64 : Text → Option ℕ
  pub decode_base64 : Text → Option (List ℕ)

pub data FieldType : Type 0 where
  string integer float boolean bytes_field other : FieldType

-- the cases of `match field_type`
unfoldable pub field_type_of : Text → FieldType
unfolding str
field_type_of t =
    if t == str "STRING"
    then string
    else if t == str "INTEGER" || t == str "INT64"
    then integer
    else if t == str "FLOAT" || t == str "FLOAT64"
    then float
    else if t == str "BOOLEAN" || t == str "BOOL"
    then boolean
    else if t == str "BYTES"
    then bytes_field
    else other

-- `{message} column '{col_name}': {detail}`
column_error : String → Text → Text → ConnectorError
column_error message col_name detail =
    query_failed (str message ++ (str " column '" ++ (col_name ++ (str "': " ++ detail))))

-- what a string is read as, or else what the value is
read_value :
    {A : Type 0}
    → ConnectorError
    → Option Text
    → (Text → Option A)
    → Option A
    → Result ConnectorError A
read_value e (some s) parse direct = ok_or (parse s) e
read_value e none parse direct = ok_or direct e

module _ ⦃R : Readers⦄ where
  map_value : FieldType → Value → Text → Result ConnectorError ColumnValue
  map_value string value col_name = ok (text (get_or (R.show_json value) (as_str value)))
  map_value integer value col_name = do
    n ←
        read_value (column_error "Invalid integer for" col_name (get_or [] (as_str value)))
          (as_str value) parse_i64 (as_i64 value)
    ok (int64 n)
  map_value float value col_name = do
    f ←
        read_value (column_error "Invalid float for" col_name (get_or [] (as_str value)))
          (as_str value) R.parse_f64 (R.as_f64 value)
    ok (float64 f)
  map_value boolean value col_name = do
    b ←
        read_value (column_error "Invalid bool for" col_name (get_or [] (as_str value)))
          (as_str value) (λ s. some (s == str "true")) (as_bool value)
    ok (bool b)
  map_value bytes_field value col_name = do
    s ←
        ok_or (as_str value)
          (query_failed (str "Expected string for BYTES column '" ++ (col_name ++ str "'")))
    decoded ← ok_or (R.decode_base64 s) (column_error "Invalid base64 for" col_name [])
    ok (bytes decoded)
  map_value other value col_name = ok (text (R.show_json value))

  unfoldable pub map_cell : Value → Text → Text → Result ConnectorError ColumnValue
  unfolding map_value column_error read_value str
  map_cell Json.null field_type col_name = ok null
  map_cell value field_type col_name = map_value (field_type_of field_type) value col_name
