-- ===== src/Compiler/Semantic.antt =====
-- `SemanticCompiler`, may_core/src/compiler/semantic_compiler.rs: its errors, and steps 1 to 3,
-- from the request to the metric.
pub mod Joins
pub mod Clauses
pub mod PreAgg
pub mod Compile
pub mod Matched
use maysemantic.Prelude.{
  ℕ, Text, Bool, Option, some, none, List, [], ◌∷◌, if◌then◌else◌, filter, map, nat_eq, not, length,
  Result, ok, err, ◌>>=◌, map_err,
}
use maysemantic.Ast.Node
use maysemantic.Ast.Node.{Expr}
use maysemantic.Models.Core.{Dimension, DimensionType, Entity, SemanticModel}
use maysemantic.Compiler.Lowering.{ModelMap, LoweringError}
use maysemantic.Compiler.Rls.{RlsError}
use maysemantic.Compiler.Request.{RequestParseError, SemanticRequest, has_metric}
use maysemantic.Compiler.Request
use maysemantic.Compiler.MetricResolver.{
  ResolvedMetric, MetricResolutionError, resolve, resolve_custom_dimensions,
}
use maysemantic.Compiler.ChasmTrap.{ChasmTrapError}
use maysemantic.Graph.Engine.{GraphError}
use maysemantic.Graph.Resolver.{JoinResolutionError}
use maysemantic.Dialects.Writer.{DialectError}

pub data CompilerError : Type 0 where
  request_parsing : RequestParseError → CompilerError
  metric_resolution : MetricResolutionError → CompilerError
  join_resolution : JoinResolutionError → CompilerError
  lowering : LoweringError → CompilerError
  code_generation : DialectError → CompilerError
  -- the entity, and how many time-typed dimensions it has
  unsupported_request_feature : Text → ℕ → CompilerError
  ambiguous_metric : Text → List Text → CompilerError
  graph_construction : GraphError → CompilerError
  chasm_trap_handling_failed : ChasmTrapError → CompilerError
  rls : RlsError → CompilerError

unfoldable pub matched_models : Text → ModelMap → ModelMap
matched_models metric_name models = filter (λ m. has_metric metric_name m.1) models

pick_model : Text → ModelMap → Result CompilerError (Text × SemanticModel)
pick_model metric_name [] = err (request_parsing (RequestParseError.metric_not_found metric_name))
pick_model metric_name (m ∷ []) = ok m
pick_model metric_name ms = err (ambiguous_metric metric_name (map (λ m. m.0) ms))

-- step 2
unfoldable pub find_model : ModelMap → Text → Result CompilerError (Text × SemanticModel)
unfolding matched_models pick_model
find_model models metric_name = pick_model metric_name (matched_models metric_name models)

custom_dimensions :
    SemanticModel
    → SemanticRequest
    → List Text
    → ResolvedMetric
    → Result CompilerError ResolvedMetric
custom_dimensions model request [] resolved = ok resolved
custom_dimensions model request dims resolved = do
  ds ← map_err metric_resolution (resolve_custom_dimensions model dims request.metric_name)
  ok (record resolved { dimensions = ds })

-- step 3, with the dimensions of the request where it has some
unfoldable pub resolve_metric :
    SemanticModel → SemanticRequest → Result CompilerError ResolvedMetric
unfolding custom_dimensions
resolve_metric model request = do
  resolved ← map_err metric_resolution (resolve model request.metric_name)
  custom_dimensions model request request.dimensions resolved

is_time : DimensionType → Bool
is_time DimensionType.time = Bool.true
is_time _ = Bool.false

unfoldable pub time_dims : Entity → List Dimension
unfolding is_time
time_dims entity = filter (λ d. is_time d.dimension_type) entity.dimensions

trunc_over : Text → Entity → Text → List Dimension → Result CompilerError (Option Expr)
trunc_over model_name entity granularity (d ∷ []) =
    ok
      (some (Node.date_trunc granularity (Node.dimension_ref (some model_name) entity.name d.name)))
trunc_over model_name entity granularity ds =
    err (unsupported_request_feature entity.name (length ds))

-- `trunc_expr`
unfoldable pub trunc_expr : Text → Entity → Option Text → Result CompilerError (Option Expr)
unfolding trunc_over
trunc_expr model_name entity none = ok none
trunc_expr model_name entity (some granularity) =
    trunc_over model_name entity granularity (time_dims entity)
