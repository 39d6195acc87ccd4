-- ===== src/Compiler/ChasmTrap.antt =====
-- Pre-aggregation of fact tables, may_core/src/compiler/chasm_trap.rs.
pub mod Rewrite
pub mod Reaggregate
pub mod Ctes
pub mod Accepts
use mathlib.Core.List.{foldl}
use maysemantic.Prelude.{
  Text, str, Bool, true, false, Option, some, none, List, [], ◌∷◌, ◌++◌, if◌then◌else◌, ◌==◌, find,
  contains, text_key, split, strip_prefix, Result, ok, err, ◌>>=◌,
}
use maysemantic.Ast.Node
use maysemantic.Ast.Node.{Expr, Exprs, SqlNode, Nodes, OptNode, OptNodes, nil, cons}
use maysemantic.Models.Core.{AggregationType, to_expr}
use maysemantic.Compiler.Fanout.{PathClassification, single_fact, multi_fact_join, pure_dimension}

pub data ChasmTrapError : Type 0 where
  not_a_query_node empty_fact_table_list link_dimension_not_found : ChasmTrapError
  unsupported_count_distinct : Text → ChasmTrapError
  finer_than_conformed_grain : Text → Text → Text → ChasmTrapError

pub record MeasureProjection : Type 0 where
  pub name : Text
  pub agg : AggregationType
  pub sql : Text

pub record FactPreAgg : Type 0 where
  pub entity : Text
  pub table : Text
  pub group_key : Text
  pub measures : List MeasureProjection

last_or : Text → List Text → Text
last_or t [] = t
last_or t (p ∷ ps) = last_or p ps

-- `table.rsplit('.').next()`, with the suffix
unfoldable pub agg_alias : Text → Text
unfolding last_or
agg_alias table = last_or table (split b'.' table) ++ str "_agg"

unfoldable pub avg_sum_col : Text → Text
avg_sum_col sql = sql ++ str "__sum"

unfoldable pub avg_cnt_col : Text → Text
avg_cnt_col sql = sql ++ str "__cnt"

-- the qualified column of a fact's pre-aggregation
unfoldable pub agg_column : FactPreAgg → Text → Expr
agg_column fact name = Node.Expr.column (agg_alias fact.table ++ (str "." ++ name))

unfoldable pub is_average : AggregationType → Bool
is_average AggregationType.average = true
is_average _ = false

unfoldable pub is_count_distinct : AggregationType → Bool
is_count_distinct AggregationType.distinct_count = true
is_count_distinct _ = false

-- the first measure that counts distinct values, fact by fact
unfoldable pub unsupported_measure : List FactPreAgg → Option Text
unfolding is_count_distinct
unsupported_measure [] = none
unsupported_measure (fact ∷ facts) =
    let rest = unsupported_measure facts in
    elim (find (λ m. is_count_distinct m.agg) fact.measures) [ some m ↦ some m.name | none ↦ rest ]

unfoldable pub cte_alias : SqlNode → List Text
cte_alias (Node.cte alias body) = alias ∷ []
cte_alias _ = []

unfoldable pub cte_aliases : Nodes → List Text
unfolding cte_alias
cte_aliases Node.end = []
cte_aliases (Node.node n ns) = cte_alias n ++ cte_aliases ns

unfoldable pub push_node : Nodes → SqlNode → Nodes
push_node Node.end n = Node.node n Node.end
push_node (Node.node m ns) n = Node.node m (push_node ns n)

unfoldable pub measure_exprs : List MeasureProjection → Exprs
unfolding is_average
measure_exprs [] = nil
measure_exprs (m ∷ ms) =
    let rest = measure_exprs ms in
    if is_average m.agg
    then cons
        (Node.aliased (to_expr AggregationType.sum (Node.Expr.column m.sql)) (avg_sum_col m.sql))
        (cons
          (Node.aliased (to_expr AggregationType.count (Node.Expr.column m.sql))
            (avg_cnt_col m.sql))
          rest)
    else cons (Node.aliased (to_expr m.agg (Node.Expr.column m.sql)) m.sql) rest

-- the CTE of one fact
unfoldable pub fact_cte : FactPreAgg → SqlNode
unfolding measure_exprs
fact_cte fact = Node.cte (agg_alias fact.table) (
    Node.query Node.absent_list
      (Node.select (cons (Node.Expr.column fact.group_key) (measure_exprs fact.measures)))
      (Node.from (Node.table fact.table) Node.end) Node.absent
      (Node.present (Node.group_by (cons (Node.Expr.column fact.group_key) nil))) Node.absent []
      none none)

-- the loop over the facts: the aliases in use, and the list of CTEs
unfoldable pub add_ctes : List FactPreAgg → List Text → Nodes → Nodes
unfolding fact_cte push_node
add_ctes [] existing ctes = ctes
add_ctes (fact ∷ facts) existing ctes =
    let alias = agg_alias fact.table in
    if contains existing alias
    then add_ctes facts existing ctes
    else add_ctes facts (alias ∷ existing) (push_node ctes (fact_cte fact))

unfoldable pub unwrap_ctes : OptNodes → Nodes
unwrap_ctes Node.absent_list = Node.end
unwrap_ctes (Node.present_list ns) = ns

unfoldable pub build_cte_query : SqlNode → List FactPreAgg → Result ChasmTrapError SqlNode
unfolding add_ctes unwrap_ctes cte_aliases
build_cte_query (Node.query ctes sel src w g h order limit offset) facts =
    let ctes_vec = unwrap_ctes ctes in
    ok (
      Node.query (Node.present_list (add_ctes facts (cte_aliases ctes_vec) ctes_vec)) sel src w g h
        order limit offset)
build_cte_query _ facts = err not_a_query_node
