-- ===== src/Compiler/Semantic/Compile.antt =====
-- `SemanticCompiler::compile`, may_core/src/compiler/semantic_compiler.rs: the steps in order. The
-- graph is built anew where the source takes it from the state's cache.
pub mod Secured
use maysemantic.Prelude.{Text, Option, some, none, Result, ok, ◌>>=◌, ◌>>◌, map_err, []}
use maysemantic.Ast.Node
use maysemantic.Ast.Node.{SqlNode}
use maysemantic.Ast.Combiners.{Floats}
use maysemantic.Ast.Builder.{build_from_join_path}
use maysemantic.Graph.Engine.{DiGraph, node_of, build_semantic_graph}
use maysemantic.Dialects.Quote.{Dialect}
use maysemantic.Dialects.Writer.{generate_sql}
use maysemantic.Compiler.Lowering.{ModelMap, new, lower_node}
use maysemantic.Compiler.Rls.{UserContext, inject}
use maysemantic.Compiler.Fanout.{classify}
use maysemantic.Compiler.Request
use maysemantic.Compiler.Request.{SemanticRequest}
use maysemantic.Compiler.Semantic.{
  CompilerError, request_parsing, lowering, rls, code_generation, graph_construction, find_model,
  resolve_metric, trunc_expr,
}
use maysemantic.Compiler.Semantic.Joins.{collect_joins, path_entities}
use maysemantic.Compiler.Semantic.Clauses.{select_clause, group_by_clause, where_clause_of}
use maysemantic.Compiler.Semantic.PreAgg.{pre_aggregate}

module _ ⦃D : DiGraph⦄ ⦃F : Floats⦄ (models : ModelMap) where
  -- Steps 1 to 10: the query over semantic references.
  unfoldable pub semantic_query : SemanticRequest → Result CompilerError SqlNode
  semantic_query request = do
    map_err request_parsing (Request.validate models request)
    (model_name, model) ← find_model models request.metric_name
    resolved ← resolve_metric model request
    trunc ← trunc_expr model_name resolved.measure_entity request.time_granularity
    graph ← map_err graph_construction (build_semantic_graph models)
    all_joins ← collect_joins graph resolved.measure_entity.name resolved.dimensions
    path ← path_entities models resolved.measure_entity.name all_joins
    where_ ← where_clause_of model_name model request
    pre_aggregate models resolved all_joins (classify path) path (
        Node.query Node.absent_list
          (select_clause model_name resolved trunc request.time_granularity)
          (build_from_join_path (node_of resolved.measure_entity) all_joins) where_
          (group_by_clause model_name resolved trunc) Node.absent [] request.limit none)

  secure : Option UserContext → SqlNode → Result CompilerError SqlNode
  secure none ast = ok ast
  secure (some ctx) ast = map_err rls (inject ctx models ast)

  -- Steps 11 and 12.
  unfoldable pub finish : Dialect → Option UserContext → SqlNode → Result CompilerError Text
  unfolding secure
  finish dialect user_context query_node = do
    lowered ← map_err lowering (lower_node (new models) query_node)
    ast ← secure user_context lowered
    map_err code_generation (generate_sql dialect ast)

  unfoldable pub compile :
      Dialect → SemanticRequest → Option UserContext → Result CompilerError Text
  compile dialect request user_context = do
    query_node ← semantic_query request
    finish dialect user_context query_node
