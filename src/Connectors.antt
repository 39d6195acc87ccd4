-- ===== src/Connectors.antt =====
-- The warehouse connectors: may_connectors/src/error.rs, models.rs, traits.rs and registry.rs. An
-- `f64` is its bit pattern; a stream is the list of what it yields.
pub mod Snowflake
pub mod BigQuery
pub mod Postgres
use Prim.Native.String.{String}
use maysemantic.Json.{Items, Value, object, array, get, as_str}
use maysemantic.Prelude.{
  ◌&&◌, lookup, Result, insert, leb, ◌≡◌, ℕ, str, List, Text, Option, Integer, text_key, ok, err,
  some, none, [], ◌∷◌, Bool,
}

pub data ConnectorError : Type 0 where
  connection_failed query_failed unsupported_type : Text → ConnectorError
  timeout : ConnectorError

pub data ColumnValue : Type 0 where
  null : ColumnValue
  int64 : Integer → ColumnValue
  float64 : ℕ → ColumnValue
  text : Text → ColumnValue
  bool : Bool → ColumnValue
  bytes : List ℕ → ColumnValue

abbrev pub Row : Type 0
Row = List ColumnValue

abbrev pub QueryResult : Type 0
QueryResult = List (Result ConnectorError Row)

pub record WarehouseConnector : Type 0 where
  pub execute : Text → Result ConnectorError QueryResult

pub record ConnectorRegistry : Type 0 where
  pub connectors : List (Text × WarehouseConnector)

unfoldable pub register : ConnectorRegistry → Text → WarehouseConnector → ConnectorRegistry
register r name connector = record { connectors = insert name connector r.connectors }

unfoldable pub get_connector : ConnectorRegistry → Text → Option WarehouseConnector
get_connector r name = lookup name r.connectors

-- What an HTTP request gives: an error of the transport, or a status with a body, read as a text or as
-- JSON.
pub data Answer {ℓ} (A : Type ℓ) : Type ℓ where
  timed_out : Answer A
  failed : Text → Answer A
  response : ℕ → Text → Option A → Answer A

-- `status.is_success()`
unfoldable pub is_success : ℕ → Bool
is_success status = leb 200 status && leb status 299

-- `json.get(key)`
unfoldable pub member : String → Value → Option Value
unfolding str
member key (object fields) = get (str key) fields
member key _ = none

-- `.and_then(Value::as_str)`
unfoldable pub text_of : Option Value → Option Text
text_of none = none
text_of (some value) = as_str value

-- `.and_then(Value::as_array)`
unfoldable pub items_of : Option Value → Option Items
items_of (some (array items)) = some items
items_of _ = none

-- No item follows an error.
abbrev pub EndsAtError : QueryResult → Type 0
EndsAtError [] = Unit
EndsAtError (ok row ∷ rest) = EndsAtError rest
EndsAtError (err e ∷ rest) = rest ≡ []
