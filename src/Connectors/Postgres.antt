-- ===== src/Connectors/Postgres.antt =====
-- may_connectors/src/dwh/postgres.rs. tokio_postgres is a parameter: a column comes with what `try_get` gives
-- at each Rust type that the source asks for, and `connect` with the stream of the rows of a statement.
pub mod Types
use Prim.Native.String.{String}
use maysemantic.Connectors.{
  timeout, connection_failed, unsupported_type, query_failed, Row, ConnectorError, ColumnValue,
  QueryResult, null, int64, float64, text, bool, bytes,
}
use maysemantic.Connectors.Snowflake.Token.{Secrets}
use maysemantic.Secrets.{DwhSecret, username_password}
use maysemantic.Prelude.{
  ◌++◌, if◌then◌else◌, traverse, map_err, ℕ, Option, Integer, Result, str, Text, ok, err, some,
  none, [], ◌∷◌, ◌>>=◌, Bool, List,
}

pub data PgType : Type 0 where
  int2 int4 int8 float4 float8 text_type varchar bpchar bool_type bytea : PgType
  other : Text → PgType

-- a decoded value, SQL's NULL, or why there is none
abbrev pub Got : Type 0 → Type 0
Got A = Result Text (Option A)

pub record Column : Type 0 where
  pub name : Text
  pub type_ : PgType
  pub as_int : Got Integer
  pub as_float : Got ℕ
  pub as_text : Got Text
  pub as_bool : Got Bool
  pub as_bytes : Got (List ℕ)

decode :
    {A : Type 0} → String → Text → (A → ColumnValue) → Got A → Result ConnectorError ColumnValue
decode kind name wrap (ok (some v)) = ok (wrap v)
decode kind name wrap (ok none) = ok null
decode kind name wrap (err e) = err (
    query_failed
      (str "Failed to decode column '" ++ (name ++ (str "' as " ++ (str kind ++ (str ": " ++ e))))))

map_typed : Column → PgType → Result ConnectorError ColumnValue
map_typed c int2 = decode "INT2" c.name int64 c.as_int
map_typed c int4 = decode "INT4" c.name int64 c.as_int
map_typed c int8 = decode "INT8" c.name int64 c.as_int
map_typed c float4 = decode "FLOAT4" c.name float64 c.as_float
map_typed c float8 = decode "FLOAT8" c.name float64 c.as_float
map_typed c text_type = decode "string type" c.name text c.as_text
map_typed c varchar = decode "string type" c.name text c.as_text
map_typed c bpchar = decode "string type" c.name text c.as_text
map_typed c bool_type = decode "BOOL" c.name bool c.as_bool
map_typed c bytea = decode "BYTEA" c.name bytes c.as_bytes
map_typed c (other type_name) = err (unsupported_type type_name)

unfoldable pub map_column_value : Column → Result ConnectorError ColumnValue
unfolding map_typed decode str
map_column_value c = map_typed c c.type_

-- The rows of a statement, as they arrive; an error among them does not end the loop, one in the values
-- of a row does.
yield_row : Result ConnectorError Row → QueryResult → QueryResult
yield_row (ok row) rest = ok row ∷ rest
yield_row (err e) rest = err e ∷ []

unfoldable pub rows_of : List (Result Text (List Column)) → QueryResult
unfolding yield_row
rows_of [] = []
rows_of (ok row ∷ rest) = yield_row (traverse map_column_value row) (rows_of rest)
rows_of (err e ∷ rest) = err (query_failed e) ∷ rows_of rest

-- the host, port, database, user and password of the connection
pub record Config : Type 0 where
  pub host : Text
  pub port : ℕ
  pub dbname : Text
  pub user : Text
  pub password : Text

-- What `query_raw` gives for a statement, on a connection.
abbrev pub Client : Type 0
Client = Text → Result Text (List (Result Text (List Column)))

-- the stream of a statement
unfoldable pub stream : Client → Text → QueryResult
stream client sql = elim (client sql) [ err e ↦ err (query_failed e) ∷ [] | ok rows ↦ rows_of rows ]

-- What is under the timeout: the secret and the connection. The stream is only made there, and runs when
-- it is read.
connected : (Config → Result Text Client) → Text → DwhSecret → Result ConnectorError QueryResult
connected connect sql (username_password host port database username password) = do
  client ← map_err connection_failed (
      connect (record {
        host = host;
        port = port;
        dbname = database;
        user = username;
        password = password;
      }))
  ok (stream client sql)
connected connect sql _ =
    err (connection_failed (str "Expected UsernamePassword secret for Postgres"))

-- `execute`; `in_time` tells whether the secret and the connection took less than `QUERY_TIMEOUT`
unfoldable pub execute :
    (Config → Result Text Client) → Secrets → Text → Bool → Text → Result ConnectorError QueryResult
unfolding connected str
execute connect secrets secret_name in_time sql =
    if in_time
    then (map_err (λ _. connection_failed []) (secrets secret_name) >>= connected connect sql)
    else err timeout
