-- ===== src/Compiler/ChasmTrap/Rewrite.antt =====
-- The rewriting of the outer query to the pre-aggregations, and `ChasmTrapHandler::inject_ctes`:
-- may_core/src/compiler/chasm_trap.rs.
use mathlib.Core.List.{foldl}
use maysemantic.Prelude.{
  Text, str, Option, some, none, List, [], ◌∷◌, ◌++◌, if◌then◌else◌, ◌==◌, find, text_key,
  strip_prefix, Result, ok, err, ◌>>=◌,
}
use maysemantic.Ast.Node
use maysemantic.Ast.Node.{Expr, Exprs, SqlNode, Nodes, OptNode, OptNodes, nil, cons}
use maysemantic.Models.Core.{AggregationType, to_expr}
use maysemantic.Compiler.Fanout.{PathClassification, single_fact, multi_fact_join, pure_dimension}
use maysemantic.Compiler.ChasmTrap.{
  ChasmTrapError, not_a_query_node, empty_fact_table_list, unsupported_count_distinct,
  MeasureProjection, FactPreAgg, agg_alias, avg_sum_col, avg_cnt_col, agg_column, is_average,
  unsupported_measure, build_cte_query,
}

module _ (fact : FactPreAgg) where
  rewrite_column : Text → Option Text → Expr
  unfolding agg_column
  rewrite_column col_name none = Node.Expr.column col_name
  rewrite_column col_name (some suffix) = agg_column fact suffix

  unfoldable mutual
    unfolding rewrite_column agg_column

    pub rewrite_expr : Expr → Expr
    rewrite_expr (Node.column col_name) =
        rewrite_column col_name (strip_prefix (fact.table ++ str ".") col_name)
    rewrite_expr (Node.dimension_ref model entity dimension) =
        if entity == fact.entity
        then agg_column fact fact.group_key
        else Node.dimension_ref model entity dimension
    rewrite_expr (Node.binary_op left op right) =
        Node.binary_op (rewrite_expr left) op (rewrite_expr right)
    rewrite_expr (Node.function name args) = Node.function name (rewrite_exprs args)
    rewrite_expr (Node.aliased e alias) = Node.aliased (rewrite_expr e) alias
    rewrite_expr other = other

    pub rewrite_exprs : Exprs → Exprs
    rewrite_exprs Node.nil = nil
    rewrite_exprs (Node.cons e es) = cons (rewrite_expr e) (rewrite_exprs es)

  rewrite_relation : SqlNode → SqlNode
  rewrite_relation (Node.table name) =
      if name == fact.table then Node.table (agg_alias fact.table) else Node.table name
  rewrite_relation other = other

  rewrite_join : SqlNode → SqlNode
  unfolding rewrite_relation
  rewrite_join (Node.join join_type relation on) =
      Node.join join_type (rewrite_relation relation) (rewrite_expr on)
  rewrite_join other = other

  rewrite_joins : Nodes → Nodes
  unfolding rewrite_join
  rewrite_joins Node.end = Node.end
  rewrite_joins (Node.node n ns) = Node.node (rewrite_join n) (rewrite_joins ns)

  unfoldable pub rewrite_from_and_joins : SqlNode → SqlNode
  unfolding rewrite_relation rewrite_joins
  rewrite_from_and_joins (Node.from source joins) =
      Node.from (rewrite_relation source) (rewrite_joins joins)
  rewrite_from_and_joins other = other

unfoldable pub reaggregate : AggregationType → AggregationType
reaggregate AggregationType.sum = AggregationType.sum
reaggregate AggregationType.count = AggregationType.sum
reaggregate AggregationType.min = AggregationType.min
reaggregate AggregationType.max = AggregationType.max
reaggregate AggregationType.average = AggregationType.average
reaggregate AggregationType.distinct_count = AggregationType.sum

-- what stands for a measure of a fact in the outer query
measure_column : FactPreAgg → MeasureProjection → Expr
unfolding is_average agg_column
measure_column fact m =
    if is_average m.agg
    then Node.binary_op
        (Node.binary_op (to_expr AggregationType.sum (agg_column fact (avg_sum_col m.sql)))
          (str "*") (Node.literal (str "1.0")))
        (str "/")
        (Node.function (str "NULLIF") (
          cons (to_expr AggregationType.sum (agg_column fact (avg_cnt_col m.sql)))
            (cons (Node.literal (str "0")) nil)))
    else to_expr (reaggregate m.agg) (agg_column fact m.sql)

-- the loops over the facts in the two reference cases
outer_measure : List FactPreAgg → Option Text → Text → Text → Expr
unfolding measure_column
outer_measure [] model entity measure = Node.measure_ref model entity measure
outer_measure (fact ∷ facts) model entity measure =
    let rest = outer_measure facts model entity measure in
    if fact.entity == entity
    then elim (find (λ m. m.name == measure) fact.measures) [
      | some m ↦ measure_column fact m
      | none ↦ rest
    ]
    else rest

outer_dimension : List FactPreAgg → Option Text → Text → Text → Expr
unfolding agg_column
outer_dimension [] model entity dimension = Node.dimension_ref model entity dimension
outer_dimension (fact ∷ facts) model entity dimension =
    let rest = outer_dimension facts model entity dimension in
    if fact.entity == entity then agg_column fact fact.group_key else rest

module _ (facts : List FactPreAgg) where
  unfoldable mutual
    unfolding outer_measure outer_dimension

    pub rewrite_outer_expr : Expr → Expr
    rewrite_outer_expr (Node.measure_ref model entity measure) =
        outer_measure facts model entity measure
    rewrite_outer_expr (Node.dimension_ref model entity dimension) =
        outer_dimension facts model entity dimension
    rewrite_outer_expr (Node.binary_op left op right) =
        Node.binary_op (rewrite_outer_expr left) op (rewrite_outer_expr right)
    rewrite_outer_expr (Node.function name args) = Node.function name (rewrite_outer_exprs args)
    rewrite_outer_expr (Node.aliased e alias) = Node.aliased (rewrite_outer_expr e) alias
    rewrite_outer_expr other = other

    pub rewrite_outer_exprs : Exprs → Exprs
    rewrite_outer_exprs Node.nil = nil
    rewrite_outer_exprs (Node.cons e es) = cons (rewrite_outer_expr e) (rewrite_outer_exprs es)

  rewrite_group_by : OptNode → OptNode
  rewrite_group_by (Node.present (Node.group_by es)) =
      Node.present (Node.group_by (rewrite_outer_exprs es))
  rewrite_group_by other = other

  rewrite_having : OptNode → OptNode
  rewrite_having (Node.present (Node.having e)) = Node.present (Node.having (rewrite_outer_expr e))
  rewrite_having other = other

  rewrite_where : OptNode → OptNode
  rewrite_where (Node.present (Node.where_clause e)) =
      Node.present (Node.where_clause (rewrite_outer_expr e))
  rewrite_where other = other

  unfoldable pub rewrite_outer_query : SqlNode → Result ChasmTrapError SqlNode
  unfolding rewrite_group_by rewrite_having rewrite_where
  rewrite_outer_query (Node.query ctes (Node.select exprs) src w g h order limit offset) = ok (
      Node.query ctes (Node.select (rewrite_outer_exprs exprs))
        (foldl (λ n fact. rewrite_from_and_joins fact n) src facts) (rewrite_where w)
        (rewrite_group_by g) (rewrite_having h) order limit offset)
  rewrite_outer_query _ = err not_a_query_node

unfoldable pub inject_ctes :
    SqlNode → PathClassification → List FactPreAgg → Result ChasmTrapError SqlNode
unfolding unsupported_measure
inject_ctes root single_fact facts = ok root
inject_ctes root pure_dimension facts = ok root
inject_ctes root (multi_fact_join fact_tables) [] = err empty_fact_table_list
inject_ctes root (multi_fact_join fact_tables) (fact ∷ facts) =
    elim (unsupported_measure (fact ∷ facts)) [
      | some measure ↦ err (unsupported_count_distinct measure)
      | none ↦ do
        cte_query ← build_cte_query root (fact ∷ facts)
        rewrite_outer_query (fact ∷ facts) cte_query
    ]
