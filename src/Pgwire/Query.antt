-- ===== src/Pgwire/Query.antt =====
-- `QueryProcessor::do_query`, may_pgwire/src/handler.rs. `serde_json` is the parameter `read_request`,
-- `f64::to_string` is `show_f64` and the encoder of rows is `Encoder`; the parse into an AST, whose result
-- is only logged, is left out, the lock is not poisoned, and texts are compared in upper case as ASCII
-- ones. A field's type is not kept, and a panic is a failure of its own.
pub mod Rows
pub mod Semantic
pub mod Registered
use maysemantic.Models.State.{SemanticState, get_default_model}
use maysemantic.Models.Core.{SemanticModel}
use maysemantic.Dialects.Quote.{dialect_for}
use maysemantic.Compiler.Semantic.Compile.{compile}
use maysemantic.Compiler.Request.{SemanticRequest}
use maysemantic.Ast.Combiners.{Floats}
use maysemantic.Pgwire.{error_info, ErrorInfo}
use Prim.Native.String.{String}
use maysemantic.Compiler.Lowering.{ModelMap}
use maysemantic.Graph.Engine.{DiGraph}
use maysemantic.Connectors.{
  WarehouseConnector, get_connector, QueryResult, Row, ColumnValue, ConnectorRegistry, null, int64,
  float64, text, bool, bytes,
}
use maysemantic.Prelude.{
  is_empty, ◌+◌, ltb, false, ◌≡◌, length, strip_prefix, show_nat, if◌then◌else◌, map_err, trim,
  ok_or, ◌||◌, show_i64, ◌++◌, is_some, to_ascii_upper, Bool, Option, Result, str, Text, ℕ, true,
  map, ok, err, [], ◌∷◌, List, some, none, ◌>>=◌, ◌==◌,
}

-- what becomes of a value that `DataRowEncoder::encode_field` is given
pub data Encoding : Type 0 where
  written failed out_of_range : Encoding

-- `DataRowEncoder` of the `pgwire` crate: the number of columns in its schema, and of the values
-- encoded before. It has no format for a value past the last column, which is a panic.
pub record Encoder : Type 0 where
  pub encode_field : ℕ → ℕ → Text → Encoding
  pub beyond :
      (columns encoded : ℕ) (t : Text)
      → ltb encoded columns ≡ false
      → encode_field columns encoded t ≡ out_of_range

-- an error is answered, a panic ends the connection's task
pub data Failure : Type 0 where
  reported : ErrorInfo → Failure
  panicked : Failure

-- the column names, and the rows of texts
pub data Response : Type 0 where
  empty_query : Response
  execution : Text → Response
  query : List Text → List (List Text) → Response

pub record QueryProcessor (G : Type 0) : Type 0 where
  pub state : SemanticState G
  pub connectors : ConnectorRegistry
  pub dialect_kind : Text

-- `s.starts_with(p)` and `s.contains(p)`
starts_with : Text → Text → Bool
starts_with p s = is_some (strip_prefix p s)

contains_text : Text → Text → Bool
contains_text p [] = starts_with p []
contains_text p (c ∷ s) = starts_with p (c ∷ s) || contains_text p s

-- a command that is acknowledged
unfoldable pub is_setup : Text → Bool
unfolding starts_with str
is_setup upper =
    starts_with (str "SET ") upper
    || (starts_with (str "SHOW ") upper
        || (starts_with (str "BEGIN") upper || starts_with (str "COMMIT") upper))

unfoldable pub is_version_query : Text → Bool
unfolding contains_text starts_with str
is_version_query upper = contains_text (str "VERSION()") upper

unfoldable pub is_select_1 : Text → Bool
unfolding str
is_select_1 upper = upper == str "SELECT 1;" || upper == str "SELECT 1"

internal_error : String → Text → Failure
internal_error message rest = reported (error_info "ERROR" "XX000" (str message ++ rest))

-- the text of a value
unfoldable pub show_value : (ℕ → Text) → ColumnValue → Text
unfolding str
show_value show_f64 null = str "NULL"
show_value show_f64 (int64 i) = show_i64 i
show_value show_f64 (float64 f) = show_f64 f
show_value show_f64 (text t) = t
show_value show_f64 (bool true) = str "true"
show_value show_f64 (bool false) = str "false"
show_value show_f64 (bytes b) = str "<bytes>"

-- `(0..n).map(|i| format!("col_{}", i))`, from the i-th on
unfoldable pub column_names : ℕ → Row → List Text
unfolding str
column_names i [] = []
column_names i (v ∷ row) = (str "col_" ++ show_nat i) ∷ column_names (i + 1) row

encoded : Encoding → Text → Result Failure Text
unfolding internal_error
encoded written t = ok t
encoded failed t = err (internal_error "Encoding error: " [])
encoded out_of_range t = err panicked

module _ ⦃E : Encoder⦄ (show_f64 : ℕ → Text) where
  -- the values of a row from the i-th on, in a row of so many columns
  encode_row : ℕ → ℕ → Row → Result Failure (List Text)
  unfolding encoded
  encode_row columns i [] = ok []
  encode_row columns i (v ∷ row) = do
    t ← encoded (E.encode_field columns i (show_value show_f64 v)) (show_value show_f64 v)
    texts ← encode_row columns (i + 1) row
    ok (t ∷ texts)

  -- the rows after the first, encoded for its columns; an error among them is the answer
  rest_rows : ℕ → QueryResult → Result Failure (List (List Text))
  unfolding encode_row
  rest_rows columns [] = ok []
  rest_rows columns (ok row ∷ rest) = do
    texts ← encode_row columns 0 row
    rows ← rest_rows columns rest
    ok (texts ∷ rows)
  rest_rows columns (err e ∷ rest) = err (internal_error "Query error: " [])

  -- the answer to what the stream yields
  unfoldable pub answer_rows : QueryResult → Result Failure Response
  unfolding rest_rows internal_error str
  answer_rows [] = ok (query [] [])
  answer_rows (err e ∷ rest) = err (internal_error "Query error: " [])
  answer_rows (ok row ∷ rest) = do
    texts ← encode_row (length row) 0 row
    rows ← rest_rows (length row) rest
    ok (query (column_names 0 row) (texts ∷ rows))

  run_on : Text → Option WarehouseConnector → Text → Result Failure Response
  run_on source none sql = err (internal_error "No connector registered for data source: " source)
  run_on source (some connector) sql =
      map_err (λ _. internal_error "Connector error: " []) (connector.execute sql) >>= answer_rows

  -- the model that stands first, and its connector
  on_default : ConnectorRegistry → Option SemanticModel → Text → Result Failure Response
  unfolding run_on
  on_default connectors none sql =
      err (internal_error "No semantic model loaded, cannot determine data source." [])
  on_default connectors (some model) sql =
      run_on model.name (get_connector connectors model.name) sql

  -- from `upper_query` on
  unfoldable pub run_sql : {G : Type 0} → QueryProcessor G → Text → Result Failure Response
  unfolding on_default internal_error str
  run_sql q sql =
      let upper = map to_ascii_upper sql in
      if is_setup upper
      then ok (execution (str "OK"))
      else if is_version_query upper
      then ok (
          query (str "version" ∷ [])
            ((str "May Semantic Layer (PostgreSQL 14.0 compatible)" ∷ []) ∷ []))
      else if is_select_1 upper
      then ok (query (str "?column?" ∷ []) ((str "1" ∷ []) ∷ []))
      else on_default q.connectors (get_default_model q.state) sql

module _ ⦃D : DiGraph⦄ ⦃F : Floats⦄ ⦃E : Encoder⦄ (read_request : Text → Option SemanticRequest)
    (show_f64 : ℕ → Text) where
  -- the SQL of a semantic request
  unfoldable pub compile_request : {G : Type 0} → QueryProcessor G → Text → Result Failure Text
  unfolding str
  compile_request q json_body = do
    request ←
        ok_or (read_request json_body)
          (reported (error_info "ERROR" "22000" (str "Invalid semantic request JSON: ")))
    map_err (λ _. reported (error_info "ERROR" "42000" []))
        (compile q.state.models (dialect_for q.dialect_kind) request none)

  -- the query that is run: that of a semantic request, or the text itself
  actual_query : {G : Type 0} → QueryProcessor G → Text → Option Text → Result Failure Text
  unfolding compile_request
  actual_query q trimmed none = ok trimmed
  actual_query q trimmed (some json_body) = compile_request q json_body

  unfoldable pub do_query : {G : Type 0} → QueryProcessor G → Text → Result Failure Response
  unfolding actual_query str
  do_query q input =
      let trimmed = trim input in
      if is_empty trimmed
      then ok empty_query
      else (actual_query q trimmed (strip_prefix (str "SEMANTIC ") trimmed) >>= run_sql show_f64 q)
