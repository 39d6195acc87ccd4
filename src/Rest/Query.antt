-- ===== src/Rest/Query.antt =====
-- `POST /query`, may_rest/src/routes/query.rs. The messages of the errors are left out of
-- `QueryApiError`; the read lock is not poisoned, and the dialect of the state is looked up as
-- `dialect_for` does.
pub mod Mapping
pub mod Handler
-- `MAX_LIMIT`
use maysemantic.Compiler.Semantic.Compile.{compile}
use maysemantic.Compiler.Lowering.{ModelMap}
use maysemantic.Dialects.Quote.{dialect_for, Dialect}
use maysemantic.Ast.Combiners.{Floats}
use maysemantic.Compiler.Request.{SemanticRequest, SemanticFilter}
use maysemantic.Rest.{from_request, from_request_parts, JsonRejection, AppState, Jwt, ApiError}
use maysemantic.Graph.Engine.{DiGraph}
use maysemantic.Prelude.{
  is_some, map_err, ltb, ◌||◌, trim, is_empty, nat_eq, if◌then◌else◌, length, ℕ, List, Option, Text,
  Result, ◌>>=◌, ◌>>◌, ok, err, some, none, [], ◌∷◌,
}
use maysemantic.Compiler.Semantic.{
  CompilerError, request_parsing, metric_resolution, join_resolution, unsupported_request_feature,
  ambiguous_metric, lowering, code_generation, graph_construction, chasm_trap_handling_failed, rls,
}

abbrev pub max_limit : ℕ
max_limit = 10_000

pub record TimeRange : Type 0 where
  pub granularity : Option Text
  pub start : Option Text
  pub end : Option Text

pub record QueryRequest : Type 0 where
  pub metrics : List Text
  pub dimensions : List Text
  pub filters : List SemanticFilter
  pub time_range : Option TimeRange
  pub limit : Option ℕ

pub data QueryMappingError : Type 0 where
  empty_metrics blank_metric_name time_range_bounds_unsupported : QueryMappingError
  multiple_metrics_unsupported : ℕ → QueryMappingError
  limit_out_of_range : ℕ → ℕ → QueryMappingError

one_metric : List Text → Result QueryMappingError Text
one_metric [] = err empty_metrics
one_metric (name ∷ []) = ok name
one_metric (name ∷ other ∷ rest) = err (multiple_metrics_unsupported (length (name ∷ other ∷ rest)))

not_blank : Text → Result QueryMappingError (Unit {0})
not_blank name = if is_empty (trim name) then err blank_metric_name else ok tt

check_limit : Option ℕ → Result QueryMappingError (Unit {0})
check_limit none = ok tt
check_limit (some l) =
    if nat_eq l 0 || ltb max_limit l then err (limit_out_of_range l max_limit) else ok tt

granularity_of : Option TimeRange → Result QueryMappingError (Option Text)
granularity_of none = ok none
granularity_of (some range) =
    if is_some range.start || is_some range.end
    then err time_range_bounds_unsupported
    else ok range.granularity

-- `SemanticRequest::try_from`
unfoldable pub try_from : QueryRequest → Result QueryMappingError SemanticRequest
unfolding one_metric not_blank check_limit granularity_of
try_from req = do
  metric_name ← one_metric req.metrics
  not_blank metric_name
  check_limit req.limit
  time_granularity ← granularity_of req.time_range
  ok (record {
    metric_name = metric_name;
    dimensions = req.dimensions;
    filters = req.filters;
    time_granularity = time_granularity;
    limit = req.limit;
  })

-- A row holds JSON values; the only one that the handler makes is null.
pub data JsonNull : Type 0 where
  null : JsonNull

pub record QueryResponse : Type 0 where
  pub metric : Text
  pub sql : Text
  pub columns : List Text
  pub rows : List (List JsonNull)
  pub row_count : ℕ

-- the status of a `QueryApiError`, by what it came from
pub data QueryApiError : Type 0 where
  from_auth from_json : ApiError → QueryApiError
  from_mapping : QueryMappingError → QueryApiError
  from_compiler_error : CompilerError → QueryApiError

unfoldable pub compiler_status : CompilerError → ℕ
compiler_status (request_parsing e) = 400
compiler_status (metric_resolution e) = 400
compiler_status (join_resolution e) = 400
compiler_status (unsupported_request_feature t n) = 400
compiler_status (ambiguous_metric m ms) = 400
compiler_status (lowering e) = 500
compiler_status (code_generation e) = 500
compiler_status (graph_construction e) = 500
compiler_status (chasm_trap_handling_failed e) = 500
compiler_status (rls e) = 500

unfoldable pub status : QueryApiError → ℕ
unfolding compiler_status
status (from_auth e) = e.status
status (from_json e) = e.status
status (from_mapping e) = 400
status (from_compiler_error e) = compiler_status e

-- the envelope: one row of one null
unfoldable pub envelope : Text → Text → QueryResponse
envelope metric sql =
    let rows : List (List JsonNull) = (null ∷ []) ∷ [] in
    record {
      metric = metric;
      sql = sql;
      columns = metric ∷ [];
      rows = rows;
      row_count = length rows;
    }

module _ ⦃D : DiGraph⦄ ⦃F : Floats⦄ (dialect : Dialect) (models : ModelMap) where
  -- from the payload on
  unfoldable pub run_query : QueryRequest → Result QueryApiError QueryResponse
  unfolding envelope
  run_query payload = do
    request ← map_err from_mapping (try_from payload)
    sql ← map_err from_compiler_error (compile models dialect request none)
    ok (envelope request.metric_name sql)

module _ ⦃D : DiGraph⦄ ⦃F : Floats⦄ ⦃J : Jwt⦄ (state : AppState) (models : ModelMap) where
  unfoldable pub query_handler :
      ℕ → Option Text → Result JsonRejection QueryRequest → Result QueryApiError QueryResponse
  query_handler now authorization body = do
    map_err from_auth (from_request_parts state now authorization)
    payload ← map_err from_json (from_request body)
    run_query (dialect_for state.dialect_kind) models payload
