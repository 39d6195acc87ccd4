-- ===== src/Compiler/Semantic/Clauses.antt =====
-- Steps 8 to 10 of may_core/src/compiler/semantic_compiler.rs: the clauses of the semantic query.
pub mod Grouped
pub mod Values
use mathlib.Core.List.{foldl}
use maysemantic.Prelude.{
  Text, str, Bool, Option, some, none, List, [], ◌∷◌, if◌then◌else◌, ◌==◌, ◌&&◌, ◌||◌, map,
  traverse, starts_with_char, ends_with_char, Result, ok, ◌>>=◌, map_err,
}
use maysemantic.Ast.Node
use maysemantic.Ast.Node.{Expr, SqlNode, OptNode, cons}
use maysemantic.Ast.Combiners.{Floats, quote_text}
use maysemantic.Ast.Builder.{build_semantic_select, build_semantic_group_by}
use maysemantic.Models.Core.{SemanticModel}
use maysemantic.Compiler.Request.{FilterOperator, SemanticFilter, SemanticRequest}
use maysemantic.Compiler.MetricResolver.{ResolvedMetric, resolve_dimension}
use maysemantic.Compiler.Semantic.{CompilerError, metric_resolution}

-- `dims_for_select` and `measures_for_select`
abbrev pub dims_for_select : ResolvedMetric → List (Text × Text)
dims_for_select r = map (λ d. (d.0.name, d.1.name)) r.dimensions

abbrev pub measures_for_select : ResolvedMetric → List (Text × Text)
measures_for_select r = (r.measure_entity.name, r.measure.name) ∷ []

-- the truncated time dimension stands first, under the granularity's name
insert_trunc : Option Expr → Option Text → SqlNode → SqlNode
insert_trunc (some e) (some granularity) (Node.select exprs) =
    Node.select (cons (Node.aliased e granularity) exprs)
insert_trunc _ _ sel = sel

unfoldable pub select_clause : Text → ResolvedMetric → Option Expr → Option Text → SqlNode
unfolding insert_trunc
select_clause model_name r trunc granularity =
    insert_trunc trunc granularity
      (build_semantic_select (some model_name) (dims_for_select r) (measures_for_select r))

group_by_dims : Text → List (Text × Text) → OptNode
group_by_dims model_name [] = Node.absent
group_by_dims model_name dims = Node.present (build_semantic_group_by (some model_name) dims)

group_by_trunc : Option Expr → OptNode → OptNode
group_by_trunc none g = g
group_by_trunc (some e) (Node.present (Node.group_by cols)) =
    Node.present (Node.group_by (cons e cols))
group_by_trunc (some e) _ = Node.present (Node.group_by (cons e Node.nil))

unfoldable pub group_by_clause : Text → ResolvedMetric → Option Expr → OptNode
unfolding group_by_dims group_by_trunc
group_by_clause model_name r trunc =
    group_by_trunc trunc (group_by_dims model_name (dims_for_select r))

unfoldable pub op_str : FilterOperator → Text
op_str FilterOperator.eq = str "="
op_str FilterOperator.not_eq = str "<>"
op_str FilterOperator.gt = str ">"
op_str FilterOperator.lt = str "<"
op_str FilterOperator.gte = str ">="
op_str FilterOperator.lte = str "<="
op_str FilterOperator.is_in = str "IN"

is_some {ℓ} : {A : Type ℓ} → Option A → Bool
is_some none = Bool.false
is_some (some a) = Bool.true

module _ ⦃F : Floats⦄ where
  unfoldable pub is_verbatim : Text → Bool
  unfolding is_some
  is_verbatim value =
      starts_with_char 39 value && ends_with_char 39 value
      || starts_with_char b'(' value && ends_with_char b')' value
      || is_some (F.parse_f64 value)
      || value == str "true"
      || value == str "false"

  unfoldable pub quoted_value : Text → Text
  quoted_value value = if is_verbatim value then value else quote_text value

  unfoldable pub filter_expr :
      Text → SemanticModel → Text → SemanticFilter → Result CompilerError Expr
  filter_expr model_name model metric_name f = do
    (entity, dim) ← map_err metric_resolution (resolve_dimension model metric_name f.dimension)
    ok (
        Node.binary_op (Node.dimension_ref (some model_name) entity.name dim.name)
          (op_str f.operator) (Node.literal (quoted_value f.value)))

and_filters : List Expr → OptNode
and_filters [] = Node.absent
and_filters (e ∷ es) =
    Node.present (Node.where_clause (foldl (λ acc x. Node.binary_op acc (str "AND") x) e es))

module _ ⦃F : Floats⦄ where
  unfoldable pub where_clause_of :
      Text → SemanticModel → SemanticRequest → Result CompilerError OptNode
  unfolding and_filters
  where_clause_of model_name model request = do
    exprs ← traverse (filter_expr model_name model request.metric_name) request.filters
    ok (and_filters exprs)
